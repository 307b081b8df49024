-- ===== src/Copilot/ConversationStore/Bounds.antt =====
-- What stays bounded in copilot/kernel/conversation-store.ts, over every sequence of operations.
use newbie_modules.Common.{
  ℕ, ◌≤◌, String, [], ◌∷◌, ◌++◌, length, length-keep_last-le, arith, Option,
}
use newbie_modules.Copilot.ConversationStore.State.{
  Store, BeginRunCommand, BeginRunOutcome, RunHandle, max_messages_per_conversation,
  max_replay_events, new_store, user, assistant,
}
use newbie_modules.Copilot.ConversationStore.Operations.{
  prune, start, allocate, begin_run, note_event, finish, push_answer, succeed, fail,
}
use newbie_modules.Copilot.ConversationStore.Outcomes.{
  Begun, replay_own, refuse_replay, refuse_foreign, refuse_busy, resume, open_new, begin_run-Begun,
}

-- No conversation and no replay buffer has outgrown its limit.
pub record IsBounded {Event : Type 0} (s : Store Event) : Type 0 where
  pub messages : (p : ℕ) → length (s.heap p).messages ≤ max_messages_per_conversation
  pub events : (b : ℕ) → length (s.buffers b) ≤ max_replay_events

-- One call of the store or of a handle; the handle is any, also a settled or a stale one.
pub data Step {Event : Type 0} : Store Event → Store Event → Type 0 where
  began :
      (now : ℕ) (uuid : String) (c : BeginRunCommand) (s : Store Event)
      → Step s (begin_run now uuid c s).0
  noted : (h : RunHandle) (event : Event) (s : Store Event) → Step s (note_event h event s)
  succeeded :
      (at finished_at : ℕ) (h : RunHandle) (text : String) (s : Store Event)
      → Step s (succeed at finished_at h text s)
  failed : (finished_at : ℕ) (h : RunHandle) (s : Store Event) → Step s (fail finished_at h s)

pub data Reach {Event : Type 0} (s : Store Event) : Store Event → Type 0 where
  here : Reach s s
  next : {t u : Store Event} → Reach s t → Step t u → Reach s u

module _ {Event : Type 0} where
  prune-IsBounded : (now : ℕ) (s : Store Event) → IsBounded s → IsBounded (prune now s)
  unfolding prune
  prune-IsBounded now s h = record { messages = h.messages; events = h.events }

  start-IsBounded :
      (now : ℕ) (c : BeginRunCommand) (p : ℕ) (s : Store Event)
      → IsBounded s
      → IsBounded (start now c p s).0
  unfolding start
  start-IsBounded now c p s h = record {
    messages = λ q. ground (
      arith,
      h.messages q,
      length-keep_last-le max_messages_per_conversation
          ((s.heap p).messages ++ record { role = user; content = c.user_message; at = now } ∷ []),
    );
    events = λ b. ground (arith, h.events b);
  }

  allocate-IsBounded :
      (now : ℕ) (uuid : String) (c : BeginRunCommand) (s : Store Event)
      → IsBounded s
      → IsBounded (allocate now uuid c s)
  unfolding allocate
  allocate-IsBounded now uuid c s h = record {
    messages = λ q. ground (arith, h.messages q);
    events = h.events;
  }

  Begun-IsBounded :
      {now : ℕ} {uuid : String} {c : BeginRunCommand} {s : Store Event}
      {r : Store Event × BeginRunOutcome Event}
      → Begun now uuid c s r
      → IsBounded s
      → IsBounded r.0
  Begun-IsBounded (replay_own run known own) h = h
  Begun-IsBounded (refuse_replay run known foreign) h = h
  Begun-IsBounded (refuse_foreign p fresh found foreign) h = h
  Begun-IsBounded (refuse_busy p lock fresh found own live busy) h = h
  Begun-IsBounded {now} {c} {s} (resume p fresh found own live idle) h = start-IsBounded now c p s h
  Begun-IsBounded {now} {uuid} {c} {s} (open_new fresh missing) h =
      start-IsBounded now c s.next_record (allocate now uuid c s)
        (allocate-IsBounded now uuid c s h)

  note_event-IsBounded :
      (h : RunHandle) (event : Event) (s : Store Event)
      → IsBounded s
      → IsBounded (note_event h event s)
  unfolding note_event
  note_event-IsBounded h event s b = record {
    messages = b.messages;
    events = λ q. ground (
      arith,
      b.events q,
      length-keep_last-le max_replay_events (s.buffers h.buffer ++ event ∷ []),
    );
  }

  succeed-IsBounded :
      (at finished_at : ℕ) (h : RunHandle) (text : String) (s : Store Event)
      → IsBounded s
      → IsBounded (succeed at finished_at h text s)
  unfolding succeed push_answer finish
  succeed-IsBounded at finished_at h text s b = record {
    messages = λ q. ground (
      arith,
      b.messages q,
      b.messages h.owner,
      length-keep_last-le max_messages_per_conversation
          ((s.heap h.owner).messages ++ record { role = assistant; content = text; at = at } ∷ []),
    );
    events = λ q. ground (arith, b.events q);
  }

  fail-IsBounded :
      (finished_at : ℕ) (h : RunHandle) (s : Store Event)
      → IsBounded s
      → IsBounded (fail finished_at h s)
  unfolding fail finish
  fail-IsBounded finished_at h s b = record {
    messages = λ q. ground (arith, b.messages q, b.messages h.owner);
    events = λ q. ground (arith, b.events q);
  }

  Step-IsBounded : {s t : Store Event} → Step s t → IsBounded s → IsBounded t
  Step-IsBounded (began now uuid c s) b =
      Begun-IsBounded (begin_run-Begun now uuid c s) (prune-IsBounded now s b)
  Step-IsBounded (noted h event s) b = note_event-IsBounded h event s b
  Step-IsBounded (succeeded at finished_at h text s) b = succeed-IsBounded at finished_at h text s b
  Step-IsBounded (failed finished_at h s) b = fail-IsBounded finished_at h s b

  Reach-IsBounded_from : {s t : Store Event} → IsBounded s → Reach s t → IsBounded t
  Reach-IsBounded_from b here = b
  Reach-IsBounded_from b (next r step) = Step-IsBounded step (Reach-IsBounded_from b r)

-- From a new store, whatever calls are made and in whatever order, no conversation holds more than
-- 50 messages and no replay buffer more than 500 events.
pub Reach-IsBounded :
    {Event : Type 0} (ttl_ms retention_ms : Option ℕ) {t : Store Event}
    → Reach (new_store ttl_ms retention_ms) t
    → IsBounded t
unfolding new_store
Reach-IsBounded ttl_ms retention_ms r =
    Reach-IsBounded_from (record { messages = λ p. omega arith; events = λ b. omega arith }) r
