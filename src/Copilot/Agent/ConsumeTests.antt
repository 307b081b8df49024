-- ===== src/Copilot/Agent/ConsumeTests.antt =====
-- The consumption of concrete runs.
use newbie_modules.Common.{true, false, ◌≡◌, refl, none, some, List, [], ◌∷◌}
use newbie_modules.Copilot.ConversationStore.State.{RunHandle, Store, new_store}
use newbie_modules.Copilot.Agent.Events.{
  AgentEvent, ModelFinishReason, run_started, text_delta, run_finished,
}
use newbie_modules.Copilot.Agent.State.{read_chunks, deltas}
use newbie_modules.Copilot.Agent.Runner.{run_agent, run_loop, round, after_turn}
use newbie_modules.Copilot.Agent.Consume.{Frame, consume_agent_run}
use newbie_modules.Copilot.Agent.Releasing.{holds, consume_agent_run_releases}
use newbie_modules.Copilot.Agent.Word.{events_of}
use newbie_modules.Copilot.Agent.Consumption.{
  answer, frame_events, settled_at_end, consume_agent_run-settled_at_end,
}
use newbie_modules.Copilot.Agent.Tests.{deletion, session, services}

abbrev handle : RunHandle
handle = record {
  conversation_id = "c";
  history = [];
  owner = 0;
  buffer = 0;
  request_id = "r";
  user_id = "ann";
}

abbrev locked : Store AgentEvent
locked = record (new_store none none) {
  heap = λ p. record {
    conversation_id = "c";
    user_id = "ann";
    messages = [];
    created_at = 1;
    updated_at = 1;
    running = some (record { request_id = "r"; started_at = 1 });
  };
}

abbrev frame : AgentEvent → Frame
frame e = record { event = e; observer_throws = false; at = 5; finished_at = 6 }

abbrev first : Frame
first = frame (run_started "r" "c" "m" ("delete" ∷ []))

abbrev others : List Frame
others = frame (text_delta "done") ∷ frame (run_finished "r" 1 ModelFinishReason.stop none) ∷ []

consume_agent_run_releases_example :
    holds handle
      (consume_agent_run
        (first ∷ record (frame (text_delta "do")) { observer_throws = true } ∷ [])
        false
        9
        handle
        locked).store
    ≡ false
consume_agent_run_releases_example =
    consume_agent_run_releases
      (first ∷ record (frame (text_delta "do")) { observer_throws = true } ∷ []) false 9 handle
      locked

yields :
    frame_events (first ∷ others)
    ≡ events_of (run_agent (("delete", deletion) ∷ []) services session "m" [] "hello" 1).outputs
unfolding run_agent run_loop round after_turn deltas read_chunks
yields = refl

consume_agent_run-settled_at_end_example :
    consume_agent_run (first ∷ others) false 9 handle locked
    ≡ settled_at_end first others handle (answer (frame_events (first ∷ others))) locked
consume_agent_run-settled_at_end_example =
    consume_agent_run-settled_at_end (("delete", deletion) ∷ []) services session "m" [] "hello" 1
      first others 9 handle locked yields refl
