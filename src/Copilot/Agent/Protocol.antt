-- ===== src/Copilot/Agent/Protocol.antt =====
-- The protocol of a run's events (copilot/kernel/agent-events.ts), as an automaton over what a run
-- does. It is the specification that the loop of agent-runner.ts is held against.
use newbie_modules.Common.{
  ℕ, suc, ◌+◌, ◌≡◌, refl, String, Bool, ◌&&◌, not, List, [], ◌∷◌, ◌++◌, if◌then◌else◌, str_eq,
  arith,
}
use newbie_modules.Copilot.Agent.Events.{
  ToolStatus, AgentEvent, run_started, text_delta, tool_started, tool_finished, confirm_required,
  confirm_resolved, action, run_finished, failed, Output, emitted, audited, called_model,
  called_handler,
}
use newbie_modules.Copilot.Agent.State.{is_confirmed}

-- Where a run stands: `between` tool calls, with the last one if it was a success; inside the call of
-- an id and a name; `over`; or `broken`, out of the protocol.
pub data Phase : Type 0 where
  before_start between_calls over broken : Phase
  acting opened waiting cleared blocked ran : (id name : String) → Phase

abbrev pub is_call : String → String → String → String → Bool
is_call id name id' name' = str_eq id id' && str_eq name name'

-- Before the first event, and between two calls.
abbrev pub on_start : AgentEvent → Phase
on_start e = elim e [ run_started r c m skills ↦ between_calls | _ ↦ broken ]

abbrev pub on_rest : AgentEvent → Phase
on_rest e = elim e [
  | text_delta text ↦ between_calls
  | tool_started id name ↦ opened id name
  | run_finished r steps reason usage ↦ over
  | failed r code message is_aborted ↦ over
  | _ ↦ broken
]

-- The end of a call with this status, where the phase allows it.
abbrev pub on_finish : (String → String → ToolStatus → Phase) → AgentEvent → Phase
on_finish next e = elim e [ tool_finished id name status blocks ↦ next id name status | _ ↦ broken ]

abbrev pub failed_only : String → String → String → String → ToolStatus → Phase
failed_only id name id' name' status = elim status [
  | ToolStatus.failure ↦ if is_call id name id' name' then between_calls else broken
  | _ ↦ broken
]

abbrev pub denied_only : String → String → String → String → ToolStatus → Phase
denied_only id name id' name' status = elim status [
  | ToolStatus.denied ↦ if is_call id name id' name' then between_calls else broken
  | _ ↦ broken
]

abbrev pub not_denied : String → String → String → String → ToolStatus → Phase
not_denied id name id' name' status = elim status [
  | ToolStatus.success ↦ if is_call id name id' name' then acting id name else broken
  | ToolStatus.failure ↦ if is_call id name id' name' then between_calls else broken
  | ToolStatus.denied ↦ broken
]

-- `needs` are the skills behind a gate.
module _ (needs : String → Bool) where
  abbrev pub on_event : Phase → AgentEvent → Phase
  on_event p e = elim p [
    | before_start ↦ on_start e
    | between_calls ↦ on_rest e
    | acting id name ↦ elim e [
      | action id' name' a ↦ if is_call id name id' name' then acting id name else broken
      | other ↦ on_rest other
    ]
    | opened id name ↦ elim e [
      | confirm_required g r c id' name' ↦
          if is_call id name id' name' && needs name then waiting id name else broken
      | other ↦ on_finish (failed_only id name) other
    ]
    | waiting id name ↦ elim e [
      | confirm_resolved g id' name' outcome ↦
          if is_call id name id' name'
          then if is_confirmed outcome then cleared id name else blocked id name
          else broken
      | _ ↦ broken
    ]
    | cleared id name ↦ on_finish (failed_only id name) e
    | blocked id name ↦ on_finish (denied_only id name) e
    | ran id name ↦ on_finish (not_denied id name) e
    | over ↦ broken
    | broken ↦ broken
  ]

  -- A handler runs once in a call, behind the gate that its skill needs.
  abbrev pub on_handler : Phase → String → Phase
  on_handler p n = elim p [
    | opened id name ↦ if str_eq name n && not (needs name) then ran id name else broken
    | cleared id name ↦ if str_eq name n then ran id name else broken
    | _ ↦ broken
  ]

  abbrev pub advance : Phase → Output → Phase
  advance p (emitted e) = on_event p e
  advance p (audited entry) = p
  advance p called_model = elim p [
    | between_calls ↦ between_calls
    | acting id name ↦ between_calls
    | _ ↦ broken
  ]
  advance p (called_handler n) = on_handler p n

  unfoldable pub through : Phase → List Output → Phase
  through p [] = p
  through p (o ∷ os) = through (advance p o) os

  pub through-append :
      (p : Phase) (xs ys : List Output) → through p (xs ++ ys) ≡ through (through p xs) ys
  unfolding through
  through-append p [] ys = refl
  through-append p (x ∷ xs) ys = through-append (advance p x) xs ys

abbrev pub model_calls : List Output → ℕ
model_calls [] = 0
model_calls (emitted e ∷ os) = model_calls os
model_calls (audited entry ∷ os) = model_calls os
model_calls (called_model ∷ os) = suc (model_calls os)
model_calls (called_handler n ∷ os) = model_calls os

pub model_calls-append :
    (xs ys : List Output) → model_calls (xs ++ ys) ≡ model_calls xs + model_calls ys
model_calls-append [] ys = omega arith
model_calls-append (emitted e ∷ xs) ys = model_calls-append xs ys
model_calls-append (audited entry ∷ xs) ys = model_calls-append xs ys
model_calls-append (called_model ∷ xs) ys = omega (arith, model_calls-append xs ys)
model_calls-append (called_handler n ∷ xs) ys = model_calls-append xs ys
