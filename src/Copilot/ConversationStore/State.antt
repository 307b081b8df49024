-- ===== src/Copilot/ConversationStore/State.antt =====
-- The state of copilot/kernel/conversation-store.ts, with the limits of agent-config.ts.
-- `Map` values are references to mutable records, so the records live on a heap: a run's handle
-- keeps its reference after the map has dropped or replaced the entry. The event buffer that a
-- handle shares with the retained replay is a heap cell as well.
use newbie_modules.Common.{
  ℕ, ◌*◌, String, Bool, Option, none, some, List, [], map, ◌==◌, if◌then◌else◌, str_eq, keep_last,
  Dict, true, false,
}

abbrev pub conversation_ttl_ms : ℕ
conversation_ttl_ms = 30 * 60000

abbrev pub completed_run_retention_ms : ℕ
completed_run_retention_ms = 5 * 60000

abbrev pub max_conversations_per_user : ℕ
max_conversations_per_user = 20

abbrev pub max_messages_per_conversation : ℕ
max_messages_per_conversation = 50

abbrev pub max_replay_events : ℕ
max_replay_events = 500

pub data Role : Type 0 where
  user assistant : Role

pub record HistoryMessage : Type 0 where
  pub role : Role
  pub content : String

pub record StoredMessage : Type 0 where
  pub role : Role
  pub content : String
  pub at : ℕ

pub record BeginRunCommand : Type 0 where
  pub user_id : String
  pub conversation_id : Option String
  pub request_id : String
  pub user_message : String

pub record RunLock : Type 0 where
  pub request_id : String
  pub started_at : ℕ

pub record ConversationRecord : Type 0 where
  pub conversation_id : String
  pub user_id : String
  pub messages : List StoredMessage
  pub created_at : ℕ
  pub updated_at : ℕ
  pub running : Option RunLock

-- `events` is a reference to the buffer.
pub record CompletedRun : Type 0 where
  pub request_id : String
  pub conversation_id : String
  pub user_id : String
  pub events : ℕ
  pub finished_at : ℕ

-- What the closures of `RunHandle` capture: the record, the buffer and the command.
pub record RunHandle : Type 0 where
  pub conversation_id : String
  pub history : List HistoryMessage
  pub owner : ℕ
  pub buffer : ℕ
  pub request_id : String
  pub user_id : String

pub record Store (Event : Type 0) : Type 0 where
  pub conversations : Dict ℕ
  pub heap : ℕ → ConversationRecord
  pub next_record : ℕ
  pub completed_runs : Dict CompletedRun
  pub buffers : ℕ → List Event
  pub next_buffer : ℕ
  pub ttl_ms : ℕ
  pub retention_ms : ℕ

pub data BeginRunOutcome (Event : Type 0) : Type 0 where
  started : RunHandle → BeginRunOutcome Event
  conflict : (conversation_id existing_request_id : String) → BeginRunOutcome Event
  replayed : (conversation_id : String) → List Event → BeginRunOutcome Event
  forbidden : BeginRunOutcome Event

-- A write through a reference.
abbrev pub update {ℓ} : {A : Type ℓ} → (ℕ → A) → ℕ → A → ℕ → A
update heap p v q = if p == q then v else heap q

abbrev pub to_history : StoredMessage → HistoryMessage
to_history m = record { role = m.role; content = m.content }

abbrev pub is_running : ConversationRecord → Bool
is_running r = elim r.running [ none ↦ false | some _ ↦ true ]

abbrev pub trim_messages : List StoredMessage → List StoredMessage
trim_messages = keep_last max_messages_per_conversation

abbrev pub values : Dict ℕ → List ℕ
values = map (λ e. e.1)

-- `command.conversationId ?? this.clock.uuid()`
abbrev pub new_id : String → BeginRunCommand → String
new_id uuid c = elim c.conversation_id [ none ↦ uuid | some id ↦ id ]

abbrev pub fresh_record : ℕ → String → BeginRunCommand → ConversationRecord
fresh_record now uuid c = record {
  conversation_id = new_id uuid c;
  user_id = c.user_id;
  messages = [];
  created_at = now;
  updated_at = now;
  running = none;
}

-- `owner.running?.requestId !== command.requestId`
abbrev pub holds_lock : RunHandle → Option RunLock → Bool
holds_lock h none = false
holds_lock h (some lock) = str_eq lock.request_id h.request_id

abbrev pub blank_record : ConversationRecord
blank_record = record {
  conversation_id = "";
  user_id = "";
  messages = [];
  created_at = 0;
  updated_at = 0;
  running = none;
}

abbrev pub or_default {ℓ} : {A : Type ℓ} → Option A → A → A
or_default none d = d
or_default (some a) d = a

-- The constructor, with its options. No reference below `next_record` has been handed out, so the
-- cells' first contents are never read.
unfoldable pub new_store : {Event : Type 0} → Option ℕ → Option ℕ → Store Event
new_store ttl_ms retention_ms = record {
  conversations = [];
  heap = λ _. blank_record;
  next_record = 0;
  completed_runs = [];
  buffers = λ _. [];
  next_buffer = 0;
  ttl_ms = or_default ttl_ms conversation_ttl_ms;
  retention_ms = or_default retention_ms completed_run_retention_ms;
}
