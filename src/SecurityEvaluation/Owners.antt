-- ===== src/SecurityEvaluation/Owners.antt =====
-- The verdicts of all parts with the mechanisms that give them, and which of them is the first on a
-- criterion that has one already (security-evaluation-judgment-merge.ts).
use newbie_modules.Common.{
  ◌≡◌, Bool-cases, inl, inr, refl, sym, ap, ◌∙◌, String, Bool, true, false, ◌&&◌, not, Option, none,
  some, List, [], ◌∷◌, ◌++◌, map, if◌then◌else◌, str_eq, arith,
}
use mathlib.Core.List.{append-nil, append_assoc}
use newbie_modules.Evaluation.Contracts.{Verdict}
use newbie_modules.Evaluation.Coverage.Compose.{has}
use newbie_modules.SecurityEvaluation.Merge.{JudgmentPart}

abbrev pub keys : List Verdict → List String
keys = map (λ v. v.criterion_key)

-- No criterion has two verdicts, nor one of those seen before.
abbrev pub are_unique : List String → List Verdict → Bool
are_unique seen [] = true
are_unique seen (v ∷ vs) =
    let rest = are_unique (seen ++ v.criterion_key ∷ []) vs in
    not (has v.criterion_key seen) && rest

-- The verdicts of the parts, one after the other.
abbrev pub all_verdicts : List JudgmentPart → List Verdict
all_verdicts [] = []
all_verdicts (p ∷ ps) = p.judgment.verdicts ++ all_verdicts ps

-- The verdicts of the parts in their order, each with the mechanism that gives it.
abbrev pub tagged : String → List Verdict → List (String × Verdict)
tagged name = map (λ v. (name, v))

abbrev pub owned : List JudgmentPart → List (String × Verdict)
owned [] = []
owned (p ∷ ps) = tagged p.mechanism_name p.judgment.verdicts ++ owned ps

abbrev pub verdicts_of : List (String × Verdict) → List Verdict
verdicts_of = map (λ o. o.1)

-- The mechanism of the first verdict on a criterion.
abbrev pub owner_of : String → List (String × Verdict) → Option String
owner_of key [] = none
owner_of key ((name, v) ∷ rest) =
    if str_eq v.criterion_key key then some name else owner_of key rest

-- After `taken`, the first verdict of `coming` on a criterion that has one before it is on `key` and
-- of the mechanism `name`, and the one before it is of the mechanism `owner`.
pub record IsFirstRepeat (taken coming : List (String × Verdict)) (key owner name : String)
    : Type 0 where
  pub before : List (String × Verdict)
  pub after : List (String × Verdict)
  pub verdict : Verdict
  pub split : coming ≡ before ++ (name, verdict) ∷ after
  pub on_key : verdict.criterion_key ≡ key
  pub are_new : are_unique (keys (verdicts_of taken)) (verdicts_of before) ≡ true
  pub owner_before : owner_of key (taken ++ before) ≡ some owner

abbrev pub is_owned : Option String → Bool
is_owned none = false
is_owned (some owner) = true

pub keys-append : (vs ws : List Verdict) → keys (vs ++ ws) ≡ keys vs ++ keys ws
keys-append [] ws = refl
keys-append (v ∷ vs) ws = ap (λ ks. v.criterion_key ∷ ks) (keys-append vs ws)

pub verdicts_of-append :
    (xs ys : List (String × Verdict)) → verdicts_of (xs ++ ys) ≡ verdicts_of xs ++ verdicts_of ys
verdicts_of-append [] ys = refl
verdicts_of-append (x ∷ xs) ys = ap (λ vs. x.1 ∷ vs) (verdicts_of-append xs ys)

pub verdicts_of-tagged : (name : String) (vs : List Verdict) → verdicts_of (tagged name vs) ≡ vs
verdicts_of-tagged name [] = refl
verdicts_of-tagged name (v ∷ vs) = ap (λ ws. v ∷ ws) (verdicts_of-tagged name vs)

abbrev pub or_else : Option String → Option String → Option String
or_else none other = other
or_else (some owner) other = some owner

pub owner_of-append :
    (k : String) (xs ys : List (String × Verdict))
    → owner_of k (xs ++ ys) ≡ or_else (owner_of k xs) (owner_of k ys)
owner_of-append k [] ys = refl
owner_of-append k ((name, v) ∷ xs) ys = elim (Bool-cases (str_eq v.criterion_key k)) [
  | inl same ↦ rw same refl
  | inr other ↦ rw other (owner_of-append k xs ys)
]

pub is_owned-owner_of :
    (k : String) (xs : List (String × Verdict))
    → is_owned (owner_of k xs) ≡ has k (keys (verdicts_of xs))
unfolding has
is_owned-owner_of k [] = refl
is_owned-owner_of k ((name, v) ∷ xs) = ground (arith, is_owned-owner_of k xs)

pub are_unique-append :
    (seen : List String) (vs ws : List Verdict)
    → are_unique seen (vs ++ ws) ≡ (are_unique seen vs && are_unique (seen ++ keys vs) ws)
are_unique-append seen [] ws = rw (append-nil seen) refl
are_unique-append seen (v ∷ vs) ws =
    rw
      (
        are_unique-append (seen ++ v.criterion_key ∷ []) vs ws,
        append_assoc seen (v.criterion_key ∷ []) (keys vs),
      )
      (ground arith)

-- A repeat after more that was taken is a repeat of the whole.
pub IsFirstRepeat-append :
    (taken xs ys : List (String × Verdict)) (key owner name : String)
    → are_unique (keys (verdicts_of taken)) (verdicts_of xs) ≡ true
    → IsFirstRepeat (taken ++ xs) ys key owner name
    → IsFirstRepeat taken (xs ++ ys) key owner name
IsFirstRepeat-append taken xs ys key owner name are_new repeat =
    let whole =
      are_unique-append (keys (verdicts_of taken)) (verdicts_of xs) (verdicts_of repeat.before) in
    let longer : keys (verdicts_of (taken ++ xs))
        ≡ keys (verdicts_of taken) ++ keys (verdicts_of xs) =
      ap keys (verdicts_of-append taken xs) ∙ keys-append (verdicts_of taken) (verdicts_of xs) in
    record {
      before = xs ++ repeat.before;
      after = repeat.after;
      verdict = repeat.verdict;
      split =
          ap (λ zs. xs ++ zs) repeat.split
          ∙ sym (append_assoc xs repeat.before ((name, repeat.verdict) ∷ repeat.after));
      on_key = repeat.on_key;
      are_new =
          rw (verdicts_of-append xs repeat.before, whole, are_new) (rw longer at repeat.are_new);
      owner_before = rw (append_assoc taken xs repeat.before) at repeat.owner_before;
    }

pub append-IsFirstRepeat :
    (taken xs ys : List (String × Verdict)) (key owner name : String)
    → IsFirstRepeat taken xs key owner name
    → IsFirstRepeat taken (xs ++ ys) key owner name
append-IsFirstRepeat taken xs ys key owner name repeat = record {
  before = repeat.before;
  after = repeat.after ++ ys;
  verdict = repeat.verdict;
  split =
      ap (λ zs. zs ++ ys) repeat.split
      ∙ append_assoc repeat.before ((name, repeat.verdict) ∷ repeat.after) ys;
  on_key = repeat.on_key;
  are_new = repeat.are_new;
  owner_before = repeat.owner_before;
}
