-- ===== src/Copilot/Agent/Registry.antt =====
-- `SkillRegistry` of copilot/kernel/skill-registry.ts. JSON.parse with the skill's Zod schema, the
-- conversion of that schema, and a skill's handler under its timeout are parameters.
use newbie_modules.Common.{
  String, Bool, true, false, ◌&&◌, Option, none, some, List, [], ◌∷◌, map, select, any,
  if◌then◌else◌, str_eq, Dict, get,
}
use newbie_modules.Copilot.Agent.Schema.{Schema}
use newbie_modules.Copilot.Agent.Events.{
  SkillResult, SkillResultKind, SkillExecution, SkillEnvelope, succeeded, failed_with,
  unknown_skill, invalid_arguments, skill_failed, skill_timeout, skill_aborted, skill_call, Output,
  audited, called_handler,
}

pub data Transport : Type 0 where
  web lark : Transport

abbrev pub same_transport : Transport → Transport → Bool
same_transport web web = true
same_transport web lark = false
same_transport lark web = false
same_transport lark lark = true

pub record SkillDefinition : Type 0 where
  pub name : String
  pub description : String
  pub always_confirms : Bool
  pub transports : List Transport
  pub kind : SkillResultKind
  pub pages : Option (List String)
  pub produces_blocks : Bool
  -- What the conversion of the input schema gives, if it does not throw.
  pub json_schema : Option Schema

pub record AgentExecutionContext : Type 0 where
  pub user_id : String
  pub conversation_id : String
  pub request_id : String
  pub transport : Transport
  pub route : Option String

-- What the schema says of the raw arguments.
pub data Parsed (Data : Type 0) : Type 0 where
  not_json mismatched : Parsed Data
  valid : Data → Parsed Data

-- How a handler ends that races its timeout and the abort of the run.
pub data Handled : Type 0 where
  returned : SkillResult → Handled
  timed_out cancelled threw : Handled

pub data Prepared (Data : Type 0) : Type 0 where
  ready : Data → Prepared Data
  refused : SkillExecution → Prepared Data

pub record Skills (W Data : Type 0) : Type 0 where
  pub parse : String → String → Parsed Data
  pub handle : String → Data → W → Handled × W
  pub is_aborted : W → Bool

abbrev pub general_page_route : String
general_page_route = "*"

abbrev pub listed_on : String → Option (List String) → Bool
listed_on page none = false
listed_on page (some pages) = any (λ p. str_eq p page) pages

abbrev pub page_of : AgentExecutionContext → String
page_of c = elim c.route [ none ↦ general_page_route | some route ↦ route ]

abbrev pub is_offered : AgentExecutionContext → SkillDefinition → Bool
is_offered c d =
    any (λ t. same_transport t c.transport) d.transports && listed_on (page_of c) d.pages

abbrev pub list_for : AgentExecutionContext → Dict SkillDefinition → List String
list_for c skills = map (λ d. d.name) (select (is_offered c) (map (λ e. e.1) skills))

abbrev pub requires_confirmation : Dict SkillDefinition → String → Bool
requires_confirmation skills name = elim (get name skills) [
  | none ↦ false
  | some d ↦ d.always_confirms
]

abbrev pub result_kind : Dict SkillDefinition → String → Option SkillResultKind
result_kind skills name = elim (get name skills) [ none ↦ none | some d ↦ some d.kind ]

abbrev pub produces_blocks : Dict SkillDefinition → String → Bool
produces_blocks skills name = elim (get name skills) [ none ↦ false | some d ↦ d.produces_blocks ]

-- `auditAndFinish` for an error: an execution without actions.
abbrev pub finish_error : SkillEnvelope → SkillExecution
finish_error envelope = record { envelope = envelope; actions = []; kind = none; blocks = [] }

abbrev pub finish_ok : SkillDefinition → SkillResult → SkillExecution
finish_ok d r = record {
  envelope = succeeded r.content r.structured r.actions;
  actions = r.actions;
  kind = some d.kind;
  blocks = r.blocks;
}

abbrev pub audit_and_finish : String → SkillExecution → SkillExecution × List Output
audit_and_finish name execution = (execution, audited (skill_call name execution.envelope) ∷ [])

module _ {W Data : Type 0} (skills : Dict SkillDefinition) (env : Skills W Data) where
  open env use {parse, handle, is_aborted}

  unfoldable pub prepare_skill : String → String → W → Prepared Data × List Output
  prepare_skill name raw w =
      let refuse : SkillEnvelope → Prepared Data × List Output = (λ envelope.
        let (x, audit) = audit_and_finish name (finish_error envelope) in (refused x, audit)) in
      elim (get name skills) [
        | none ↦ refuse (failed_with unknown_skill)
        | some d ↦
            if is_aborted w then refuse (failed_with skill_aborted) else elim (parse name raw) [
              | not_json ↦ refuse (failed_with invalid_arguments)
              | mismatched ↦ refuse (failed_with invalid_arguments)
              | valid input ↦ (ready input, [])
            ]
      ]

  -- The result of the handler, or the error for how it ended.
  abbrev pub execution_of : SkillDefinition → Handled → W → SkillExecution
  execution_of d (returned result) w = finish_ok d result
  execution_of d timed_out w = finish_error (failed_with skill_timeout)
  execution_of d cancelled w = finish_error (failed_with skill_aborted)
  execution_of d threw w =
      finish_error (failed_with (if is_aborted w then skill_aborted else skill_failed))

  -- An execution that fails before the handler is called.
  abbrev pub unhandled : String → SkillEnvelope → W → SkillExecution × List Output × W
  unhandled name envelope w =
      let (x, audit) = audit_and_finish name (finish_error envelope) in (x, audit, w)

  unfoldable pub execute_prepared : String → Data → W → SkillExecution × List Output × W
  execute_prepared name input w = elim (get name skills) [
    | none ↦ unhandled name (failed_with unknown_skill) w
    | some d ↦ elim (is_aborted w) [
      | true ↦ unhandled name (failed_with skill_aborted) w
      | false ↦
          let (handled, w') = handle name input w in
          let (x, audit) = audit_and_finish name (execution_of d handled w') in
          (x, called_handler name ∷ audit, w')
    ]
  ]
