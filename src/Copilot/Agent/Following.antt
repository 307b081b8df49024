-- ===== src/Copilot/Agent/Following.antt =====
-- The calls of tools keep the protocol (copilot/kernel/agent-runner.ts).
use newbie_modules.Common.{
  ◌≡◌, ◌⊎◌, inl, inr, refl, ap, ◌∙◌, String, Bool, true, false, List, [], ◌∷◌, ◌++◌, map,
  if◌then◌else◌, eq_refl, Dict, get, Bool-cases, Option-cases,
}
use newbie_modules.Copilot.Confirmations.Manager.{ConfirmationOutcome}
use newbie_modules.Copilot.Agent.Events.{
  ErrorCode, invalid_arguments, skill_call, SkillExecution, failed_with, ModelToolCall, SkillAction,
  Output, emitted, audited, tool_started, tool_finished, action, is_ok, unknown_skill,
  skill_aborted,
}
use newbie_modules.Copilot.Agent.Registry.{
  SkillDefinition, AgentExecutionContext, Parsed, not_json, mismatched, valid, ready, refused,
  requires_confirmation, prepare_skill, execute_prepared, finish_error,
}
use newbie_modules.Copilot.Agent.State.{Services, ToolRun, tool_status, action_events, is_confirmed}
use newbie_modules.Copilot.Agent.Runner.{
  executed, gated, run_skill, call_tool, call_tools, gate_outputs, blocks_of,
}
use newbie_modules.Copilot.Agent.Protocol.{
  Phase, between_calls, acting, opened, cleared, blocked, ran, on_handler, on_event, through,
  through-append,
}

Parsed-cases :
    {D : Type 0} (p : Parsed D) → ((p ≡ not_json) ⊎ (p ≡ mismatched)) ⊎ ((d : D) × (p ≡ valid d))
Parsed-cases not_json = inl (inl refl)
Parsed-cases mismatched = inl (inr refl)
Parsed-cases (valid d) = inr (d, refl)

module _ {W Data : Type 0} (skills : Dict SkillDefinition) (env : Services W Data)
    (context : AgentExecutionContext) where
  open env use {registry, request, settled}
  open registry use {is_aborted, handle, parse}

  abbrev needs : String → Bool
  needs = requires_confirmation skills

  -- Where an execution leaves the call of `id` and `name`: behind a denial, after the handler, or
  -- with an error before it.
  pub data Leaves (id name : String) (q : Phase) (x : SkillExecution) (is_denied : Bool)
      : Type 0 where
    denies : is_denied ≡ true → q ≡ blocked id name → Leaves id name q x is_denied
    runs : is_denied ≡ false → q ≡ ran id name → Leaves id name q x is_denied
    errs :
        is_denied ≡ false
        → is_ok x.envelope ≡ false
        → (q ≡ opened id name) ⊎ (q ≡ cleared id name)
        → Leaves id name q x is_denied

  execute_prepared-Leaves :
      (id name : String) (input : Data) (w : W) (p : Phase)
      → on_handler needs p name ≡ ran id name
      → (p ≡ opened id name) ⊎ (p ≡ cleared id name)
      → let (x, outputs, w') = execute_prepared skills registry name input w in
        Leaves id name (through needs p outputs) x false
  unfolding execute_prepared through
  execute_prepared-Leaves id name input w p h at = elim (Option-cases (get name skills)) [
    | inl absent ↦ rw (absent, execute_prepared) (errs refl refl at)
    | inr (d, found) ↦ elim (Bool-cases (is_aborted w)) [
      | inl ab ↦ rw (found, execute_prepared, ab) (errs refl refl at)
      | inr go ↦ rw (found, execute_prepared, go) (runs refl h)
    ]
  ]

  abbrev CallLeaves : ModelToolCall → Phase → ToolRun W → Type 0
  CallLeaves call p x = Leaves call.id call.name (through needs p x.outputs) x.execution x.is_denied

  executed-Leaves :
      (call : ModelToolCall) (input : Data) (outputs : List Output) (w : W) (p : Phase)
      → on_handler needs p call.name ≡ ran call.id call.name
      → (p ≡ opened call.id call.name) ⊎ (p ≡ cleared call.id call.name)
      → through needs (opened call.id call.name) outputs ≡ p
      → CallLeaves call
          (opened call.id call.name)
          (executed skills env context call input outputs w)
  unfolding executed
  executed-Leaves call input outputs w p h at led =
      rw
        (
          through-append needs (opened call.id call.name) outputs
              (execute_prepared skills registry call.name input w).1,
          led,
        )
        (execute_prepared-Leaves call.id call.name input w p h at)

  gate_through :
      (call : ModelToolCall) (gate : String) (outcome : ConfirmationOutcome)
      → needs call.name ≡ true
      → through needs (opened call.id call.name) (gate_outputs skills env context call gate outcome)
        ≡ (if is_confirmed outcome then cleared call.id call.name else blocked call.id call.name)
  unfolding through
  gate_through call gate outcome h =
      rw (eq_refl call.id, eq_refl call.name, h, eq_refl call.id, eq_refl call.name) refl

  gated-Leaves :
      (call : ModelToolCall) (input : Data) (w : W)
      → needs call.name ≡ true
      → CallLeaves call (opened call.id call.name) (gated skills env context call input w)
  unfolding gated
  gated-Leaves call input w h =
      let (gate, w1) = request call.id call.name input w in
      let (outcome, w2) = settled gate w1 in
      let led = gate_through call gate outcome h in
      elim (Bool-cases (is_confirmed outcome)) [
        | inl go ↦
            rw (gated, go)
              (executed-Leaves call input (gate_outputs skills env context call gate outcome) w2
                (cleared call.id call.name) (rw (eq_refl call.name) refl) (inr refl) (rw go at led))
        | inr stay ↦ rw (gated, stay) (denies refl (rw stay at led))
      ]

  ready-Leaves :
      (call : ModelToolCall) (input : Data) (w : W)
      → CallLeaves call (opened call.id call.name) (
          if needs call.name
          then gated skills env context call input w
          else executed skills env context call input [] w)
  unfolding through
  ready-Leaves call input w = elim (Bool-cases (needs call.name)) [
    | inl gate ↦ rw gate (gated-Leaves call input w gate)
    | inr free ↦ rw free (
        executed-Leaves call input [] w (opened call.id call.name)
          (rw (eq_refl call.name, free) refl) (inl refl) refl)
  ]

  -- The arguments pass, or the call is refused with an error.
  pub prepare_skill-cases :
      (name raw : String) (w : W)
      → ((code : ErrorCode) × (prepare_skill skills registry name raw w ≡ (
        refused (finish_error (failed_with code)),
        audited (skill_call name (failed_with code)) ∷ [],
      )))
        ⊎ ((input : Data) × (prepare_skill skills registry name raw w ≡ (ready input, [])))
  unfolding prepare_skill
  prepare_skill-cases name raw w = elim (Option-cases (get name skills)) [
    | inl absent ↦ inl (unknown_skill, rw (prepare_skill, absent) refl)
    | inr (d, found) ↦ elim (Bool-cases (is_aborted w)) [
      | inl ab ↦ inl (skill_aborted, rw (prepare_skill, found, ab) refl)
      | inr go ↦ elim (Parsed-cases (parse name raw)) [
        | inl (inl bad) ↦ inl (invalid_arguments, rw (prepare_skill, found, go, bad) refl)
        | inl (inr bad) ↦ inl (invalid_arguments, rw (prepare_skill, found, go, bad) refl)
        | inr (input, is) ↦ inr (input, rw (prepare_skill, found, go, is) refl)
      ]
    ]
  ]

  run_skill-Leaves :
      (call : ModelToolCall) (w : W)
      → CallLeaves call (opened call.id call.name) (run_skill skills env context call w)
  unfolding run_skill through
  run_skill-Leaves call w = elim (prepare_skill-cases call.name call.arguments w) [
    | inl (code, is) ↦ rw (run_skill, is) (errs refl refl (inl refl))
    | inr (input, is) ↦ rw (run_skill, is) (ready-Leaves call input w)
  ]

  actions_through :
      (call : ModelToolCall) (as' : List SkillAction)
      → through needs
          (acting call.id call.name)
          (map (λ a. emitted (action call.id call.name a)) as')
        ≡ acting call.id call.name
  unfolding through
  actions_through call [] = refl
  actions_through call (a ∷ as') =
      rw (through, eq_refl call.id, eq_refl call.name) (actions_through call as')

  -- Where the run is between calls.
  abbrev pub Rests : Phase → Type 0
  Rests p = (p ≡ between_calls) ⊎ ((id : String) × (name : String) × (p ≡ acting id name))

  finishing-Rests :
      (call : ModelToolCall) (q : Phase) (x : SkillExecution) (is_denied : Bool)
      (blocks : List String)
      → Leaves call.id call.name q x is_denied
      → Rests (
          through needs q (
            emitted (tool_finished call.id call.name (tool_status is_denied x.envelope) blocks)
            ∷ action_events call is_denied x))
  unfolding through
  finishing-Rests call q x is_denied blocks (denies is at) = elim (Bool-cases (is_ok x.envelope)) [
    | inl good ↦ rw (at, is, through, eq_refl call.id, eq_refl call.name, good) (inl refl)
    | inr bad ↦ rw (at, is, through, eq_refl call.id, eq_refl call.name, bad) (inl refl)
  ]
  finishing-Rests call q x is_denied blocks (runs is at) = elim (Bool-cases (is_ok x.envelope)) [
    | inl good ↦ inr (
      call.id,
      call.name,
      rw (at, is, through, good, eq_refl call.id, eq_refl call.name)
          (actions_through call x.actions),
    )
    | inr bad ↦ rw (at, is, through, bad, eq_refl call.id, eq_refl call.name) (inl refl)
  ]
  finishing-Rests call q x is_denied blocks (errs is bad (inl at)) =
      rw (at, is, through, bad, eq_refl call.id, eq_refl call.name) (inl refl)
  finishing-Rests call q x is_denied blocks (errs is bad (inr at)) =
      rw (at, is, through, bad, eq_refl call.id, eq_refl call.name) (inl refl)

  call_tool-Rests :
      (p : Phase) (call : ModelToolCall) (w : W)
      → Rests p
      → Rests (through needs p (call_tool skills env context call w).outputs)
  unfolding call_tool through
  call_tool-Rests p call w h =
      let r = run_skill skills env context call w in
      let blocks = blocks_of skills env context call.name r.is_denied r.execution in
      let q = opened call.id call.name in
      let opens : on_event needs p (tool_started call.id call.name) ≡ q = (elim h [
        | inl e ↦ rw e refl
        | inr (id, name, e) ↦ rw e refl
      ]) in
      let closing : List Output =
        emitted
          (tool_finished call.id call.name (tool_status r.is_denied r.execution.envelope) blocks)
        ∷ action_events call r.is_denied r.execution in
      let led : through needs p (call_tool skills env context call w).outputs
          ≡ through needs (through needs q r.outputs) closing =
        ap (λ s. through needs s (r.outputs ++ closing)) opens
        ∙ through-append needs q r.outputs closing in
      rw led (
        finishing-Rests call (through needs q r.outputs) r.execution r.is_denied blocks
          (run_skill-Leaves call w))

  pub call_tools-Rests :
      (p : Phase) (calls : List ModelToolCall) (w : W)
      → Rests p
      → Rests (through needs p (call_tools skills env context calls w).outputs)
  unfolding call_tools through
  call_tools-Rests p [] w h = h
  call_tools-Rests p (call ∷ calls) w h =
      let first = call_tool skills env context call w in
      rw
        (
          call_tools,
          through-append needs p first.outputs
              (call_tools skills env context calls first.world).outputs,
        )
        (call_tools-Rests (through needs p first.outputs) calls first.world
          (call_tool-Rests p call w h))
