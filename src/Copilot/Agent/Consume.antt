-- ===== src/Copilot/Agent/Consume.antt =====
-- copilot/kernel/consume-agent-run.ts over the handle of the conversation store. A frame is an event
-- with what the observer does on it and the readings of the clock while it is handled. What other
-- requests do to the store between two frames is left out.
use newbie_modules.Common.{
  ℕ, String, Bool, true, false, Option, none, some, List, [], ◌∷◌, if◌then◌else◌,
}
use Prim.Native.String.{◌++◌ as str_append}
use newbie_modules.Copilot.ConversationStore.State.{RunHandle, Store}
use newbie_modules.Copilot.ConversationStore.Operations.{note_event, succeed, fail}
use newbie_modules.Copilot.Agent.Events.{AgentEvent, text_delta, run_finished, failed}

pub record Frame : Type 0 where
  pub event : AgentEvent
  pub observer_throws : Bool
  pub at : ℕ
  pub finished_at : ℕ

-- `none` where the exception of the stream or of the observer is passed on.
pub record Consumed : Type 0 where
  pub store : Store AgentEvent
  pub result : Option String

abbrev pub read_text : AgentEvent → String → String
read_text e text = elim e [ text_delta t ↦ str_append text t | _ ↦ text ]

abbrev pub is_terminal : AgentEvent → Bool
is_terminal e = elim e [
  | run_finished r steps reason usage ↦ true
  | failed r code message is_aborted ↦ true
  | _ ↦ false
]

-- What the event does to the handle after it was noted and observed.
abbrev pub settle_by : Frame → RunHandle → String → Store AgentEvent → Store AgentEvent
settle_by f h text s = elim f.event [
  | run_finished r steps reason usage ↦ succeed f.at f.finished_at h text s
  | failed r code message is_aborted ↦ fail f.finished_at h s
  | _ ↦ s
]

-- The `finally` block, at the time `now`.
abbrev pub released : ℕ → RunHandle → Bool → Store AgentEvent → Store AgentEvent
released now h terminal_seen s = if terminal_seen then s else fail now h s

-- The loop over the stream; `stream_throws` says how the stream ends.
unfoldable pub drain :
    List Frame → Bool → ℕ → RunHandle → String → Bool → Store AgentEvent → Consumed
drain [] stream_throws now h text terminal_seen s = record {
  store = released now h terminal_seen s;
  result = if stream_throws then none else some text;
}
drain (f ∷ fs) stream_throws now h text terminal_seen s =
    let text' = read_text f.event text in
    let noted = note_event h f.event s in
    elim f.observer_throws [
      | true ↦ record { store = released now h terminal_seen noted; result = none }
      | false ↦
          drain fs stream_throws now h text' (if is_terminal f.event then true else terminal_seen)
            (settle_by f h text' noted)
    ]

unfoldable pub consume_agent_run : List Frame → Bool → ℕ → RunHandle → Store AgentEvent → Consumed
consume_agent_run fs stream_throws now h s = drain fs stream_throws now h "" false s
