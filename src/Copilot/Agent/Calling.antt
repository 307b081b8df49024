-- ===== src/Copilot/Agent/Calling.antt =====
-- The calls of tools do not call the model (copilot/kernel/agent-runner.ts).
use newbie_modules.Common.{
  ◌≡◌, inl, inr, refl, String, Bool, not, ◌&&◌, List, [], ◌∷◌, ◌++◌, map, Dict, get, Bool-cases,
  Option-cases, arith,
}
use newbie_modules.Copilot.Agent.Events.{
  SkillAction, SkillExecution, ModelToolCall, Output, emitted, action, is_ok,
}
use newbie_modules.Copilot.Agent.Registry.{
  SkillDefinition, AgentExecutionContext, requires_confirmation, execute_prepared,
}
use newbie_modules.Copilot.Agent.State.{Services, action_events, is_confirmed}
use newbie_modules.Copilot.Agent.Runner.{
  executed, gated, gate_outputs, run_skill, call_tool, call_tools,
}
use newbie_modules.Copilot.Agent.Protocol.{model_calls, model_calls-append}
use newbie_modules.Copilot.Agent.Following.{prepare_skill-cases}

silent-append :
    (xs ys : List Output) → model_calls xs ≡ 0 → model_calls ys ≡ 0 → model_calls (xs ++ ys) ≡ 0
silent-append xs ys h k = rw (model_calls-append xs ys) (omega (arith, h, k))

actions_silent :
    (call : ModelToolCall) (as' : List SkillAction)
    → model_calls (map (λ a. emitted (action call.id call.name a)) as') ≡ 0
actions_silent call [] = refl
actions_silent call (a ∷ as') = actions_silent call as'

action_events_silent :
    (call : ModelToolCall) (is_denied : Bool) (x : SkillExecution)
    → model_calls (action_events call is_denied x) ≡ 0
action_events_silent call is_denied x = elim (Bool-cases (is_ok x.envelope && not is_denied)) [
  | inl good ↦ rw good (actions_silent call x.actions)
  | inr bad ↦ rw bad refl
]

module _ {W Data : Type 0} (skills : Dict SkillDefinition) (env : Services W Data)
    (context : AgentExecutionContext) where
  open env use {registry, request, settled}
  open registry use {is_aborted}

  execute_prepared_silent :
      (name : String) (input : Data) (w : W)
      → model_calls (execute_prepared skills registry name input w).1 ≡ 0
  unfolding execute_prepared
  execute_prepared_silent name input w = elim (Option-cases (get name skills)) [
    | inl absent ↦ rw (execute_prepared, absent) refl
    | inr (d, found) ↦ elim (Bool-cases (is_aborted w)) [
      | inl ab ↦ rw (execute_prepared, found, ab) refl
      | inr go ↦ rw (execute_prepared, found, go) refl
    ]
  ]

  executed_silent :
      (call : ModelToolCall) (input : Data) (outputs : List Output) (w : W)
      → model_calls outputs ≡ 0
      → model_calls (executed skills env context call input outputs w).outputs ≡ 0
  unfolding executed
  executed_silent call input outputs w h =
      silent-append outputs _ h (execute_prepared_silent call.name input w)

  gated_silent :
      (call : ModelToolCall) (input : Data) (w : W)
      → model_calls (gated skills env context call input w).outputs ≡ 0
  unfolding gated
  gated_silent call input w =
      let (gate, w1) = request call.id call.name input w in
      let (outcome, w2) = settled gate w1 in
      elim (Bool-cases (is_confirmed outcome)) [
        | inl go ↦
            rw (gated, go)
              (executed_silent call input (gate_outputs skills env context call gate outcome) w2
                refl)
        | inr stay ↦ rw (gated, stay) refl
      ]

  run_skill_silent :
      (call : ModelToolCall) (w : W) → model_calls (run_skill skills env context call w).outputs ≡ 0
  unfolding run_skill
  run_skill_silent call w =
      elim (prepare_skill-cases skills env context call.name call.arguments w) [
        | inl (code, is) ↦ rw (run_skill, is) refl
        | inr (input, is) ↦ elim (Bool-cases (requires_confirmation skills call.name)) [
          | inl gate ↦ rw (run_skill, is, gate) (gated_silent call input w)
          | inr free ↦ rw (run_skill, is, free) (executed_silent call input [] w refl)
        ]
      ]

  call_tool_silent :
      (call : ModelToolCall) (w : W) → model_calls (call_tool skills env context call w).outputs ≡ 0
  unfolding call_tool
  call_tool_silent call w =
      let r = run_skill skills env context call w in
      silent-append r.outputs _ (run_skill_silent call w)
        (action_events_silent call r.is_denied r.execution)

  pub call_tools_silent :
      (calls : List ModelToolCall) (w : W)
      → model_calls (call_tools skills env context calls w).outputs ≡ 0
  unfolding call_tools
  call_tools_silent [] w = refl
  call_tools_silent (call ∷ calls) w =
      let first = call_tool skills env context call w in
      silent-append first.outputs (call_tools skills env context calls first.world).outputs
        (call_tool_silent call w) (call_tools_silent calls first.world)
