-- ===== src/SecurityEvaluation/Merge.antt =====
-- `mergeJudgments` of security-evaluation/judgment/security-evaluation-judgment-merge.ts over the
-- shapes of Evaluation.Contracts. Opaque metadata is left out, and so is its merge.
use newbie_modules.Common.{
  ℕ, String, Bool, true, false, Option, none, some, List, [], ◌∷◌, ◌++◌, map, length, leb,
  if◌then◌else◌, str_eq, Dict, get, set,
}
use Prim.Native.String.{◌++◌ as str_append}
use newbie_modules.Common.Int.{pos}
use newbie_modules.Evaluation.Contracts.{CoverageBucket, Verdict, FindingCandidate, Judgment}
use newbie_modules.Evaluation.Coverage.Compose.{has}

pub record JudgmentPart : Type 0 where
  pub mechanism_name : String
  pub judgment : Judgment

-- `SEVERITY_RANK[severity]`; a text that is no severity has no rank.
unfoldable pub severity_rank : String → Option ℕ
severity_rank s =
    if str_eq s "INFO"
    then some 0
    else if str_eq s "LOW"
    then some 1
    else if str_eq s "MEDIUM"
    then some 2
    else if str_eq s "HIGH"
    then some 3
    else if str_eq s "CRITICAL"
    then some 4
    else none

-- A comparison with `undefined` is false.
abbrev pub rank_at_least : Option ℕ → Option ℕ → Bool
rank_at_least none b = false
rank_at_least (some a) none = false
rank_at_least (some a) (some b) = leb b a

abbrev pub higher_severity : String → String → String
higher_severity a b = if rank_at_least (severity_rank a) (severity_rank b) then a else b

-- What the loop collects. A `Set` is a list without repetitions in the order of insertion.
pub record Collected : Type 0 where
  pub verdicts : List Verdict
  pub verdict_owners : Dict String
  pub findings : Dict FindingCandidate
  pub evaluated_refs : List String
  pub skipped_items : List String
  pub skipped_notes : List String
  pub summaries : List String
  pub has_skipped : Bool

pub data Merged (A : Type 0) : Type 0 where
  merged : A → Merged A
  clash : (criterion_key owner mechanism_name : String) → Merged A

abbrev pub nothing_collected : Collected
nothing_collected = record {
  verdicts = [];
  verdict_owners = [];
  findings = [];
  evaluated_refs = [];
  skipped_items = [];
  skipped_notes = [];
  summaries = [];
  has_skipped = false;
}

abbrev pub add : List String → String → List String
add set' x = if has x set' then set' else set' ++ x ∷ []

unfoldable pub add_all : List String → List String → List String
add_all set' [] = set'
add_all set' (x ∷ xs) = add_all (add set' x) xs

-- The loop over a part's verdicts.
unfoldable pub add_verdicts :
    String → List Verdict → List Verdict → Dict String → Merged (List Verdict × Dict String)
add_verdicts name [] verdicts owners = merged (verdicts, owners)
add_verdicts name (v ∷ vs) verdicts owners = elim (get v.criterion_key owners) [
  | some owner ↦ clash v.criterion_key owner name
  | none ↦ add_verdicts name vs (verdicts ++ v ∷ []) (set v.criterion_key name owners)
]

-- The finding that the map holds after this one.
abbrev pub merge_finding : Option FindingCandidate → FindingCandidate → FindingCandidate
merge_finding none finding = finding
merge_finding (some existing) finding = record existing {
  severity = higher_severity existing.severity finding.severity;
}

unfoldable pub add_findings : List FindingCandidate → Dict FindingCandidate → Dict FindingCandidate
add_findings [] findings = findings
add_findings (f ∷ fs) findings =
    add_findings fs (set f.fingerprint (merge_finding (get f.fingerprint findings) f) findings)

-- The empty text is falsy.
abbrev pub add_text : List String → (String → String) → Option String → List String
add_text texts prefixed none = texts
add_text texts prefixed (some text) = if str_eq text "" then texts else texts ++ prefixed text ∷ []

abbrev pub or_empty : Option (List String) → List String
or_empty none = []
or_empty (some xs) = xs

abbrev pub add_skipped : String → Option CoverageBucket → Collected → Collected
add_skipped name none c = c
add_skipped name (some bucket) c = record c {
  has_skipped = true;
  skipped_items = add_all c.skipped_items (or_empty bucket.items);
  skipped_notes =
      add_text c.skipped_notes (λ note. str_append name (str_append ": " note)) bucket.note;
}

-- What a part adds besides its verdicts.
abbrev pub with_part : JudgmentPart → List Verdict × Dict String → Collected → Collected
with_part part (verdicts, owners) c =
    add_skipped part.mechanism_name part.judgment.skipped (record c {
      verdicts = verdicts;
      verdict_owners = owners;
      findings = add_findings part.judgment.findings c.findings;
      evaluated_refs = add_all c.evaluated_refs part.judgment.evaluated_refs;
      summaries = add_text c.summaries (λ text. text) part.judgment.summary;
    })

-- One round of the loop over the parts.
unfoldable pub add_part : JudgmentPart → Collected → Merged Collected
add_part part c =
    elim (add_verdicts part.mechanism_name part.judgment.verdicts c.verdicts c.verdict_owners) [
      | clash key owner mechanism ↦ clash key owner mechanism
      | merged taken ↦ merged (with_part part taken c)
    ]

unfoldable pub collect : List JudgmentPart → Collected → Merged Collected
collect [] c = merged c
collect (p ∷ ps) c = elim (add_part p c) [
  | clash key owner mechanism ↦ clash key owner mechanism
  | merged c' ↦ collect ps c'
]

-- `texts.join(" ")`
abbrev pub join : List String → String
join [] = ""
join (t ∷ ts) = let rest = join ts in elim ts [ [] ↦ t | _ ↦ str_append t (str_append " " rest) ]

abbrev pub unless_empty {ℓ} : {A : Type ℓ} → List String → A → Option A
unless_empty [] a = none
unless_empty (x ∷ xs) a = some a

abbrev pub build_skipped_bucket : List String → List String → CoverageBucket
build_skipped_bucket items notes = record {
  total = pos (length items);
  by_source = none;
  note = unless_empty notes (join notes);
  items = unless_empty items items;
}

abbrev pub finish_merge : Collected → Judgment
finish_merge c = record {
  verdicts = c.verdicts;
  findings = map (λ e. e.1) c.findings;
  evaluated_refs = c.evaluated_refs;
  skipped =
      if c.has_skipped then some (build_skipped_bucket c.skipped_items c.skipped_notes) else none;
  summary = unless_empty c.summaries (join c.summaries);
}

unfoldable pub merge_judgments : List JudgmentPart → Merged Judgment
merge_judgments parts = elim (collect parts nothing_collected) [
  | clash key owner mechanism ↦ clash key owner mechanism
  | merged c ↦ merged (finish_merge c)
]
