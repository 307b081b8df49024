-- ===== src/SecurityEvaluation/Verdicts.antt =====
-- One owner for each criterion (security-evaluation-judgment-merge.ts).
use newbie_modules.Common.{
  ◌≡◌, subst, Bool-cases, inl, inr, refl, sym, ap, ◌∙◌, String, true, false, none, some, List, [],
  ◌∷◌, ◌++◌, if◌then◌else◌, str_eq, Dict, get, set, get-set, Option-cases, arith,
}
use text.Mathlib.TextEquality.{eq_iff}
use mathlib.Core.List.{append-nil, append_assoc}
use newbie_modules.Evaluation.Contracts.{Verdict, Judgment}
use newbie_modules.Evaluation.Coverage.Compose.{has}
use newbie_modules.SecurityEvaluation.Owners.{
  keys, are_unique, all_verdicts, tagged, owned, verdicts_of, owner_of, IsFirstRepeat, keys-append,
  verdicts_of-append, verdicts_of-tagged, owner_of-append, is_owned-owner_of, are_unique-append,
  IsFirstRepeat-append, append-IsFirstRepeat,
}
use newbie_modules.SecurityEvaluation.Merge.{
  JudgmentPart, Collected, Merged, merged, clash, nothing_collected, add_verdicts, add_part,
  with_part, collect, finish_merge, merge_judgments,
}

abbrev Fits : List (String × Verdict) → Dict String → Type 0
Fits taken owners = (k : String) → get k owners ≡ owner_of k taken

set-Fits :
    (v : Verdict) (name : String) (taken : List (String × Verdict)) (owners : Dict String)
    → Fits taken owners
    → get v.criterion_key owners ≡ none
    → Fits (taken ++ (name, v) ∷ []) (set v.criterion_key name owners)
set-Fits v name taken owners fits free k =
    rw (get-set v.criterion_key k name owners, owner_of-append k taken ((name, v) ∷ []))
      (elim (Bool-cases (str_eq v.criterion_key k)) [
        | inl same ↦
            let e = (eq_iff v.criterion_key k).0 same in
            let unowned : owner_of k taken ≡ none =
              sym (fits k) ∙ subst (λ key. get key owners ≡ none) e free in
            rw (same, unowned) refl
        | inr other ↦ elim (Option-cases (owner_of k taken)) [
          | inl unowned ↦ rw (other, fits k, unowned) refl
          | inr (owner, is) ↦ rw (other, fits k, is) refl
        ]
      ])

-- How verdicts of a mechanism are taken after those that were.
data Takes (mechanism : String) (vs : List Verdict) (taken : List (String × Verdict))
    (r : Merged (List Verdict × Dict String)) : Type 0 where
  takes :
      (owners : Dict String)
      → are_unique (keys (verdicts_of taken)) vs ≡ true
      → r ≡ merged (verdicts_of taken ++ vs, owners)
      → Fits (taken ++ tagged mechanism vs) owners
      → Takes mechanism vs taken r
  refuses :
      (key owner name : String)
      → are_unique (keys (verdicts_of taken)) vs ≡ false
      → r ≡ clash key owner name
      → IsFirstRepeat taken (tagged mechanism vs) key owner name
      → Takes mechanism vs taken r

add_verdicts-Takes :
    (name : String) (vs : List Verdict) (taken : List (String × Verdict)) (owners : Dict String)
    → Fits taken owners
    → Takes name vs taken (add_verdicts name vs (verdicts_of taken) owners)
unfolding add_verdicts
add_verdicts-Takes name [] taken owners fits =
    takes owners refl (rw (append-nil (verdicts_of taken)) refl) (rw (append-nil taken) fits)
add_verdicts-Takes name (v ∷ vs) taken owners fits =
    let key = v.criterion_key in
    let known = is_owned-owner_of key taken in
    elim (Option-cases (get key owners)) [
      | inr (owner, found) ↦
          let is : owner_of key taken ≡ some owner = sym (fits key) ∙ found in
          refuses key owner name (ground (arith, known, is)) (rw (add_verdicts, found) refl)
            (record {
              before = [];
              after = tagged name vs;
              verdict = v;
              split = refl;
              on_key = refl;
              are_new = refl;
              owner_before = rw (append-nil taken) is;
            })
      | inl free ↦
          let unowned : owner_of key taken ≡ none = sym (fits key) ∙ free in
          let unseen : has key (keys (verdicts_of taken)) ≡ false =
            ground (arith, known, unowned) in
          let more : verdicts_of (taken ++ (name, v) ∷ []) ≡ verdicts_of taken ++ v ∷ [] =
            verdicts_of-append taken ((name, v) ∷ []) in
          let longer : keys (verdicts_of (taken ++ (name, v) ∷ []))
              ≡ keys (verdicts_of taken) ++ key ∷ [] =
            ap keys more ∙ keys-append (verdicts_of taken) (v ∷ []) in
          let whole = append_assoc (verdicts_of taken) (v ∷ []) vs in
          elim (add_verdicts-Takes name vs (taken ++ (name, v) ∷ []) (set key name owners)
            (set-Fits v name taken owners fits free)) [
              | takes owners' unique is fits' ↦
                  takes owners' (rw unseen (rw longer at unique))
                    (rw (add_verdicts, free) (rw (more, whole) at is))
                    (rw (append_assoc taken ((name, v) ∷ []) (tagged name vs)) at fits')
              | refuses k o n twice is repeat ↦
                  refuses k o n (rw unseen (rw longer at twice))
                    (rw (add_verdicts, free) (rw more at is))
                    (IsFirstRepeat-append taken ((name, v) ∷ []) (tagged name vs) k o n
                      (rw unseen refl) repeat)
            ]
    ]

-- What the loop over the parts gives from `taken` on.
data Collects (ps : List JudgmentPart) (taken : List (String × Verdict)) (r : Merged Collected)
    : Type 0 where
  collects :
      (c : Collected)
      → are_unique (keys (verdicts_of taken)) (all_verdicts ps) ≡ true
      → r ≡ merged c
      → c.verdicts ≡ verdicts_of taken ++ all_verdicts ps
      → Collects ps taken r
  stops :
      (key owner name : String)
      → are_unique (keys (verdicts_of taken)) (all_verdicts ps) ≡ false
      → r ≡ clash key owner name
      → IsFirstRepeat taken (owned ps) key owner name
      → Collects ps taken r

with_part-verdicts :
    (part : JudgmentPart) (vs : List Verdict) (owners : Dict String) (c : Collected)
    → ((with_part part (vs, owners) c).verdicts ≡ vs)
      × ((with_part part (vs, owners) c).verdict_owners ≡ owners)
with_part-verdicts part vs owners c = elim (Option-cases part.judgment.skipped) [
  | inl absent ↦ rw absent (refl, refl)
  | inr (bucket, is) ↦ rw is (refl, refl)
]

collect-Collects :
    (ps : List JudgmentPart) (c : Collected) (taken : List (String × Verdict))
    → c.verdicts ≡ verdicts_of taken
    → Fits taken c.verdict_owners
    → Collects ps taken (collect ps c)
unfolding collect add_part
collect-Collects [] c taken are fits =
    collects c refl refl (rw (append-nil (verdicts_of taken)) are)
collect-Collects (p ∷ ps) c taken are fits =
    let vs = p.judgment.verdicts in
    let ours = tagged p.mechanism_name vs in
    let unique_step = are_unique-append (keys (verdicts_of taken)) vs (all_verdicts ps) in
    elim (add_verdicts-Takes p.mechanism_name vs taken c.verdict_owners fits) [
      | refuses k o n twice is repeat ↦
          stops k o n (rw twice at unique_step) (rw (collect, add_part, are, is) refl)
            (append-IsFirstRepeat taken ours (owned ps) k o n repeat)
      | takes owners unique is fits' ↦
          let more : verdicts_of (taken ++ ours) ≡ verdicts_of taken ++ vs =
            verdicts_of-append taken ours
            ∙ ap (λ ws. verdicts_of taken ++ ws) (verdicts_of-tagged p.mechanism_name vs) in
          let c' = with_part p (verdicts_of taken ++ vs, owners) c in
          let (same, same') = with_part-verdicts p (verdicts_of taken ++ vs) owners c in
          let go : collect (p ∷ ps) c ≡ collect ps c' = rw (collect, add_part, are, is) refl in
          let split : are_unique (keys (verdicts_of taken)) (vs ++ all_verdicts ps)
              ≡ are_unique (keys (verdicts_of (taken ++ ours))) (all_verdicts ps) =
            rw (more, keys-append (verdicts_of taken) vs) (rw unique at unique_step) in
          elim (collect-Collects ps c' (taken ++ ours) (same ∙ sym more) (rw same' fits')) [
            | collects d unique' done all ↦ collects d (split ∙ unique') (go ∙ done) (
                all
                ∙ ap (λ ws. ws ++ all_verdicts ps) more
                ∙ append_assoc (verdicts_of taken) vs (all_verdicts ps))
            | stops k o n twice done repeat ↦ stops k o n (split ∙ twice) (go ∙ done) (
                IsFirstRepeat-append taken ours (owned ps) k o n
                  (rw (verdicts_of-tagged p.mechanism_name vs) unique) repeat)
          ]
    ]

nothing-Fits : Fits [] []
unfolding get
nothing-Fits k = refl

-- The merge succeeds exactly if no criterion has two verdicts over all parts, and then it has all
-- their verdicts in their order. Otherwise the error is about the first verdict, in the order of the
-- parts, whose criterion has a verdict before it: it names that criterion, the mechanism of the
-- verdict before it and the mechanism of the repeated one.
pub merge_judgments-verdicts :
    (parts : List JudgmentPart)
    → if are_unique [] (all_verdicts parts)
      then ((j : Judgment) × (merge_judgments parts ≡ merged j) × (j.verdicts ≡ all_verdicts parts))
      else ((key : String) × (owner : String) × (name : String) × (merge_judgments parts
            ≡ clash key owner name)
          × IsFirstRepeat [] (owned parts) key owner name)
unfolding merge_judgments
merge_judgments-verdicts parts =
    elim (collect-Collects parts nothing_collected [] refl nothing-Fits) [
      | collects c unique done all ↦
          rw unique (finish_merge c, rw (merge_judgments, done) refl, all)
      | stops k o n twice done repeat ↦ rw twice (k, o, n, rw (merge_judgments, done) refl, repeat)
    ]
