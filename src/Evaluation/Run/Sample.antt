-- ===== src/Evaluation/Run/Sample.antt =====
-- A run table as a list of rows, with one subject and one version: an instance of what
-- evaluation/evaluation-run.service.ts relies on.
use mathlib.Core.List.{Memᴰ, not-mem-nil}
use newbie_modules.Common.{
  ℕ, String, ◌≡◌, ◌≢◌, refl, sym, Bool, true, false, Option, none, some, List, [], ◌∷◌, ◌==◌,
  if◌then◌else◌, str_eq, ◌&&◌, arith, Option-cases, Bool-cases, inl, inr, All, subst, eq_iff,
}
use newbie_modules.Common.Rows.{
  find_row, find_rows, rows_table, find_row-id, find_rows_sound, find_rows_complete,
}
use newbie_modules.Evaluation.Run.State.{Run, Subject, RuleSetVersion, RunDb, clashes}

abbrev pub acme : Subject
acme = record { id = 7; kind = "vendor" }

abbrev pub vendor_rules : RuleSetVersion
vendor_rules = record {
  id = 3;
  kind = "vendor";
  evaluation_key = "k";
  version = "1";
  published_at = some 10;
}

abbrev pub subject_of : ℕ → Option Subject
subject_of id = if acme.id == id then some acme else none

abbrev pub version_of : ℕ → Option RuleSetVersion
version_of id = if vendor_rules.id == id then some vendor_rules else none

abbrev pub published_of : String → String → String → Option RuleSetVersion
published_of kind key version =
    if str_eq vendor_rules.kind kind
    then if str_eq vendor_rules.evaluation_key key && str_eq vendor_rules.version version
      then some vendor_rules
      else none
    else none

abbrev pub is_taken : Run → Run → Bool
is_taken r q = if q.id == r.id then true else clashes r q

abbrev pub insert_if : Run → List Run → List Run → Option (List Run)
insert_if r rs [] = some (r ∷ rs)
insert_if r rs (q ∷ qs) = none

abbrev pub create_row : Run → List Run → Option (List Run)
create_row r rs = insert_if r rs (find_rows (λ q. q.id) (is_taken r) rs)

pub insert_if-some :
    (r : Run) (rs qs t : List Run) → insert_if r rs qs ≡ some t → (qs ≡ []) × (t ≡ r ∷ rs)
insert_if-some r rs [] t h = (refl, cc)
insert_if-some r rs (q ∷ qs) t h = cc

pub insert_if-none :
    (r : Run) (rs qs : List Run) {P : Run → Type 0}
    → insert_if r rs qs ≡ none
    → All P qs
    → (q : Run) × P q
insert_if-none r rs [] h k = absurd (cc h)
insert_if-none r rs (q ∷ qs) h (k, ks) = (q, k)

mem_nil : {q : Run} {qs : List Run} → qs ≡ [] → Memᴰ q qs → ⊥
mem_nil {q} e m = not-mem-nil ∣ subst (Memᴰ q) e m ∣₁

not_taken :
    (r q : Run) (s t : List Run)
    → create_row r s ≡ some t
    → find_row (λ q. q.id) q.id s ≡ some q
    → is_taken r q ≡ false
not_taken r q s t made found = elim (Bool-cases (is_taken r q)) [
  | inr free ↦ free
  | inl taken ↦ absurd (
      mem_nil (insert_if-some r s _ t made).0
        (find_rows_complete (λ q. q.id) (is_taken r) s q found taken))
]

pub create_row-fresh :
    (r : Run) (s t : List Run) → create_row r s ≡ some t → find_row (λ q. q.id) r.id s ≡ none
create_row-fresh r s t made = elim (Option-cases (find_row (λ q. q.id) r.id s)) [
  | inl free ↦ free
  | inr (q, found) ↦
      let e : q.id ≡ r.id = find_row-id (λ q. q.id) r.id s q found in
      let free =
        not_taken r q s t made (subst (λ k. find_row (λ q. q.id) k s ≡ some q) (sym e) found) in
      absurd (ground (arith, e))
]

pub create_row_unique :
    (r q : Run) (s t : List Run) (j : ℕ)
    → create_row r s ≡ some t
    → find_row (λ q. q.id) j s ≡ some q
    → clashes r q ≡ false
create_row_unique r q s t j made found =
    let e : q.id ≡ j = find_row-id (λ q. q.id) j s q found in
    let free =
      not_taken r q s t made (subst (λ k. find_row (λ q. q.id) k s ≡ some q) (sym e) found) in
    elim (Bool-cases (q.id == r.id)) [
      | inl same ↦ absurd (cc (rw same at free))
      | inr other ↦ rw other at free
    ]

pub find_published_lem :
    (kind key version : String) (v : RuleSetVersion)
    → published_of kind key version ≡ some v
    → (version_of v.id ≡ some v) × (v.kind ≡ kind) × (v.published_at ≢ none)
find_published_lem kind key version v h = ground (arith, eq_iff "vendor" kind)

abbrev pub table : RunDb (List Run)
table = record {
  runs = rows_table (λ r. r.id);
  find_subject = λ id s. subject_of id;
  find_version = λ id s. version_of id;
  find_published = λ kind key version s. published_of kind key version;
  create = create_row;
  find-create = λ r s t j made. rw (insert_if-some r s _ t made).1;
  create_fresh = create_row-fresh;
  create_unique = create_row_unique;
  create_refused = λ r s refused.
      let (q, both) =
        insert_if-none r s (find_rows (λ q. q.id) (is_taken r) s) refused
          (find_rows_sound (λ q. q.id) (is_taken r) s) in
      (q, both.0, both.1);
  find_published_sound = λ kind key version s v. find_published_lem kind key version v;
}
