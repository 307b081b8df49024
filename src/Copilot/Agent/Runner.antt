-- ===== src/Copilot/Agent/Runner.antt =====
-- `AgentRunner` of copilot/kernel/agent-runner.ts. The model, the approval gates, the system prompt
-- and the bounding of blocks are parameters; the skills are those of Registry. The bounding of blocks
-- is a total function: that it throws, as on a cyclic custom block, is left out. A run gives what it
-- does, in order, and whether it ended, for a consumer that reads every event. The previews of
-- arguments and results are left out.
use newbie_modules.Common.{
  ℕ, zero, suc, String, Bool, true, false, not, ◌&&◌, none, some, List, [], ◌∷◌, ◌++◌, map,
  if◌then◌else◌, Dict, leb,
}
use newbie_modules.Copilot.Confirmations.Manager.{ConfirmationOutcome, ConfirmationReason}
use newbie_modules.Copilot.ConversationStore.State.{HistoryMessage}
use newbie_modules.Copilot.Agent.Events.{
  step_limit, internal, run_started, tool_started, tool_finished, confirm_required,
  confirm_resolved, run_finished, ModelToolCall, succeeded, SkillExecution, ChatMessage,
  system_message, user_message, assistant_turn, tool_message, model_call, gate_required,
  gate_resolved, Output, emitted, audited, called_model, is_ok,
}
use newbie_modules.Copilot.Agent.Registry.{
  SkillDefinition, AgentExecutionContext, Prepared, ready, refused, list_for, requires_confirmation,
  result_kind, produces_blocks, prepare_skill, execute_prepared,
}
use newbie_modules.Copilot.Agent.State.{
  max_agent_steps, Failure, Services, Turn, new_turn, read_chunks, deltas, add_usage,
  model_error_to_code, model_error_message, denied_model_message, denied_structured, failed_event,
  cancelled_event, reported_usage, Loop, Ran, ToolRun, Called, before, ends, is_confirmed,
  to_working_message, tool_status, action_events, model_error, other_error,
}

module _ {W Data : Type 0} (skills : Dict SkillDefinition) (env : Services W Data)
    (context : AgentExecutionContext) where
  open env use {registry, stream, request, settled, bound_blocks, system_prompt}
  open registry use {is_aborted}

  abbrev pub denied_execution : String → ConfirmationReason → SkillExecution
  denied_execution name reason = record {
    envelope = succeeded (some (denied_model_message reason)) (some (denied_structured reason)) [];
    actions = [];
    kind = result_kind skills name;
    blocks = [];
  }

  -- The skill runs, without a gate or behind a confirmed one.
  unfoldable pub executed : ModelToolCall → Data → List Output → W → ToolRun W
  executed call input outputs w =
      let (x, more, w') = execute_prepared skills registry call.name input w in
      record { outputs = outputs ++ more; execution = x; is_denied = false; world = w' }

  -- The run waits at the gate between the two events.
  abbrev pub gate_outputs : ModelToolCall → String → ConfirmationOutcome → List Output
  gate_outputs call gate outcome =
      audited (gate_required call.name call.id gate)
      ∷ emitted (confirm_required gate context.request_id context.conversation_id call.id call.name)
      ∷ emitted (confirm_resolved gate call.id call.name outcome)
      ∷ audited (gate_resolved call.name call.id gate outcome)
      ∷ []

  unfoldable pub gated : ModelToolCall → Data → W → ToolRun W
  gated call input w =
      let (gate, w1) = request call.id call.name input w in
      let (outcome, w2) = settled gate w1 in
      elim (is_confirmed outcome) [
        | true ↦ executed call input (gate_outputs call gate outcome) w2
        | false ↦ record {
          outputs = gate_outputs call gate outcome;
          execution = denied_execution call.name outcome.reason;
          is_denied = true;
          world = w2;
        }
      ]

  abbrev pub after_prepare : ModelToolCall → W → Prepared Data × List Output → ToolRun W
  after_prepare call w (refused x, audits) = record {
    outputs = audits;
    execution = x;
    is_denied = false;
    world = w;
  }
  after_prepare call w (ready input, audits) =
      if requires_confirmation skills call.name
      then gated call input w
      else executed call input audits w

  unfoldable pub run_skill : ModelToolCall → W → ToolRun W
  run_skill call w = after_prepare call w (prepare_skill skills registry call.name call.arguments w)

  abbrev pub blocks_of : String → Bool → SkillExecution → List String
  blocks_of name is_denied x =
      if not is_denied && produces_blocks skills name
      then elim x.blocks [ [] ↦ [] | b ∷ bs ↦ bound_blocks (b ∷ bs) ]
      else []

  abbrev pub tool_result : ModelToolCall → SkillExecution → ChatMessage
  tool_result call x = tool_message call.id call.name x.envelope (not (is_ok x.envelope))

  -- The events of one call of a tool, and the message that goes back to the model.
  unfoldable pub call_tool : ModelToolCall → W → Called W
  call_tool call w =
      let r = run_skill call w in
      record {
        outputs =
            emitted (tool_started call.id call.name)
            ∷ (r.outputs
                ++ emitted (
                    tool_finished call.id call.name (tool_status r.is_denied r.execution.envelope)
                      (blocks_of call.name r.is_denied r.execution))
                  ∷ action_events call r.is_denied r.execution);
        messages = tool_result call r.execution ∷ [];
        world = r.world;
      }

  unfoldable pub call_tools : List ModelToolCall → W → Called W
  call_tools [] w = record { outputs = []; messages = []; world = w }
  call_tools (call ∷ calls) w =
      let first = call_tool call w in
      let rest = call_tools calls first.world in
      record {
        outputs = first.outputs ++ rest.outputs;
        messages = first.messages ++ rest.messages;
        world = rest.world;
      }

  -- The `catch` of the loop.
  abbrev pub caught : Failure → Bool → Output
  caught failure true = cancelled_event context.request_id
  caught (model_error category) false =
      failed_event context.request_id (model_error_to_code category) (model_error_message category)
        false
  caught other_error false =
      failed_event context.request_id internal "The agent failed unexpectedly. Please try again."
        false

  -- What the loop does with a turn of the model: `s` has counted the turn.
  unfoldable pub after_turn : (Loop → W → Ran W) → Loop → Turn → W → Ran W
  after_turn again s turn w = elim turn.tool_calls [
    | [] ↦
        ends
          (emitted
              (run_finished context.request_id s.steps turn.finish_reason (reported_usage s.usage))
            ∷ [])
          w
    | call ∷ calls ↦
        if leb max_agent_steps s.steps
        then ends
            (failed_event context.request_id step_limit
                "The agent reached the 10-step tool-call limit without a final answer." false
              ∷ [])
            w
        else let tools = call_tools (call ∷ calls) w in
          before tools.outputs
            (again (record s { messages = s.messages ++ tools.messages }) tools.world)
  ]

  abbrev pub counted : Loop → Turn → Loop
  counted s turn = record {
    messages = s.messages ++ assistant_turn turn.text turn.tool_calls ∷ [];
    usage = add_usage s.usage turn.usage;
    steps = suc s.steps;
  }

  -- One round of the loop; `again` is the rest of the rounds.
  unfoldable pub round : (Loop → W → Ran W) → Loop → W → Ran W
  round again s w =
      if is_aborted w
      then ends (cancelled_event context.request_id ∷ []) w
      else let (streamed, w') = stream s.messages w in
        let read = called_model ∷ deltas streamed.chunks in
        elim streamed.thrown [
          | some failure ↦
              before (read ++ audited (model_call (suc s.steps) none false) ∷ [])
                (ends (caught failure (is_aborted w') ∷ []) w')
          | none ↦
              let turn = read_chunks new_turn streamed.chunks in
              before (read ++ audited (model_call (suc s.steps) turn.usage true) ∷ [])
                (after_turn again (counted s turn) turn w')
        ]

  -- `while (true)`, on fuel.
  unfoldable pub run_loop : ℕ → Loop → W → Ran W
  run_loop zero s w = record { outputs = []; has_ended = false; world = w }
  run_loop (suc fuel) s w = round (run_loop fuel) s w

  -- The state of the loop before its first round.
  abbrev pub initial : List HistoryMessage → String → Loop
  initial history message = record {
    messages =
        system_message (system_prompt (list_for context skills))
        ∷ (map to_working_message history ++ user_message message ∷ []);
    usage = record { prompt_tokens = 0; completion_tokens = 0; total_tokens = 0 };
    steps = 0;
  }

  unfoldable pub run_agent : (model_id : String) → List HistoryMessage → String → W → Ran W
  run_agent model_id history message w =
      before
        (emitted (
            run_started context.request_id context.conversation_id model_id
              (list_for context skills))
          ∷ [])
        (run_loop max_agent_steps (initial history message) w)
