-- ===== src/Copilot/Agent/Tests.antt =====
-- A run at a concrete model, user and skill.
use newbie_modules.Common.{
  ℕ, zero, suc, ◌≤◌, ◌≡◌, refl, String, true, false, none, some, [], ◌∷◌, get,
}
use newbie_modules.Copilot.Confirmations.Manager.{ConfirmationDecision, ConfirmationReason}
use newbie_modules.Copilot.Agent.Events.{
  ModelFinishReason, text_chunk, tool_call_chunk, finish_chunk, SkillResultKind,
}
use newbie_modules.Copilot.Agent.Schema.{no_object}
use newbie_modules.Copilot.Agent.Registry.{
  web, SkillDefinition, AgentExecutionContext, valid, returned, requires_confirmation,
  execute_prepared, prepare_skill,
}
use newbie_modules.Copilot.Agent.State.{Services, max_agent_steps, read_chunks, deltas}
use newbie_modules.Copilot.Agent.Runner.{
  run_agent, run_loop, round, after_turn, call_tools, call_tool, run_skill, gated, executed,
}
use newbie_modules.Copilot.Agent.Protocol.{before_start, over, through, model_calls}
use newbie_modules.Copilot.Agent.Ending.{run_agent-FollowsProtocol}

abbrev pub deletion : SkillDefinition
deletion = record {
  name = "delete";
  description = "deletes";
  always_confirms = true;
  transports = web ∷ [];
  kind = SkillResultKind.detail;
  pages = some ("*" ∷ []);
  produces_blocks = false;
  json_schema = some no_object;
}

abbrev pub session : AgentExecutionContext
session = record {
  user_id = "ann";
  conversation_id = "c";
  request_id = "r";
  transport = web;
  route = none;
}

-- The world counts the calls of the model: the first asks for the skill, the second answers.
abbrev pub services : Services ℕ String
services = record {
  registry = record {
    parse = λ name raw. valid raw;
    handle = λ name input w. (
      returned (record { content = some "gone"; structured = none; actions = []; blocks = [] }),
      w,
    );
    is_aborted = λ w. false;
  };
  stream = λ messages w. elim w [
    | zero ↦ (
      record {
        chunks = tool_call_chunk (record { id = "t"; name = "delete"; arguments = "7" }) ∷ [];
        thrown = none;
      },
      1,
    )
    | suc k ↦ (
      record {
        chunks = text_chunk "done" ∷ finish_chunk ModelFinishReason.stop none ∷ [];
        thrown = none;
      },
      suc (suc k),
    )
  ];
  request = λ id name input w. ("g", w);
  settled = λ gate w. (
    record { decision = ConfirmationDecision.confirmed; reason = ConfirmationReason.by_user },
    w,
  );
  bound_blocks = λ blocks. blocks;
  system_prompt = λ offered. "";
}

calls_twice :
    model_calls (run_agent (("delete", deletion) ∷ []) services session "m" [] "delete 7" 0).outputs
    ≡ 2
unfolding run_agent run_loop round after_turn call_tools call_tool run_skill prepare_skill gated
    executed execute_prepared get deltas read_chunks
calls_twice = refl

run_agent-FollowsProtocol_example :
    let r = run_agent (("delete", deletion) ∷ []) services session "m" [] "delete 7" 0 in
    (r.has_ended ≡ true)
    × (through (requires_confirmation (("delete", deletion) ∷ [])) before_start r.outputs ≡ over)
    × (model_calls r.outputs ≤ max_agent_steps)
run_agent-FollowsProtocol_example =
    run_agent-FollowsProtocol (("delete", deletion) ∷ []) services session "m" [] "delete 7" 0
