-- ===== src/Copilot/ConversationStore/Operations.antt =====
-- The operations of `InMemoryConversationStore` in copilot/kernel/conversation-store.ts.
-- `clock.now()` and `clock.uuid()` are arguments. `now - t` is a signed number in the source and is
-- only compared with a span, so the truncated difference gives the same test.
use newbie_modules.Common.{
  ℕ, suc, ◌-◌, String, Option, none, some, [], ◌∷◌, ◌++◌, map, ltb, if◌then◌else◌, str_eq, select,
  keep_last, get, set, not, ◌&&◌,
}
use newbie_modules.Copilot.ConversationStore.State.{
  user, assistant, StoredMessage, BeginRunCommand, RunHandle, Store, update, BeginRunOutcome,
  started, conflict, replayed, forbidden, is_running, trim_messages, to_history, new_id,
  fresh_record, holds_lock, max_replay_events,
}
use newbie_modules.Copilot.ConversationStore.Eviction.{evict_conversations}

module _ {Event : Type 0} where
  unfoldable pub prune : ℕ → Store Event → Store Event
  prune now s = record s {
    conversations =
        select
          (λ e. not (not (is_running (s.heap e.1)) && ltb s.ttl_ms (now - (s.heap e.1).updated_at)))
          s.conversations;
    completed_runs =
        select (λ e. not (ltb s.retention_ms (now - e.1.finished_at))) s.completed_runs;
  }

  -- The idle record `p` takes the run: the message, the lock, the eviction and the handle.
  unfoldable pub start : ℕ → BeginRunCommand → ℕ → Store Event → Store Event × BeginRunOutcome Event
  start now c p s =
      let r = s.heap p in
      let message : StoredMessage = record { role = user; content = c.user_message; at = now } in
      let heap = update s.heap p (record r {
        messages = trim_messages (r.messages ++ message ∷ []);
        updated_at = now;
        running = some (record { request_id = c.request_id; started_at = now });
      }) in
      (
        record s {
          conversations = evict_conversations heap c.user_id s.conversations;
          heap = heap;
          buffers = update s.buffers s.next_buffer [];
          next_buffer = suc s.next_buffer;
        },
        started (record {
          conversation_id = r.conversation_id;
          history = map to_history r.messages;
          owner = p;
          buffer = s.next_buffer;
          request_id = c.request_id;
          user_id = c.user_id;
        }),
      )

  unfoldable pub begin_on :
      ℕ → BeginRunCommand → ℕ → Store Event → Store Event × BeginRunOutcome Event
  begin_on now c p s = elim (s.heap p).running [
    | some lock ↦ (s, conflict (s.heap p).conversation_id lock.request_id)
    | none ↦ start now c p s
  ]

  -- A new record, and the map's entry for it.
  unfoldable pub allocate : ℕ → String → BeginRunCommand → Store Event → Store Event
  allocate now uuid c s = record s {
    conversations = set (new_id uuid c) s.next_record s.conversations;
    heap = update s.heap s.next_record (fresh_record now uuid c);
    next_record = suc s.next_record;
  }

  unfoldable pub open_fresh :
      ℕ → String → BeginRunCommand → Store Event → Store Event × BeginRunOutcome Event
  open_fresh now uuid c s = begin_on now c s.next_record (allocate now uuid c s)

  -- `command.conversationId ? this.conversations.get(command.conversationId) : undefined`; the
  -- empty text is falsy.
  unfoldable pub find_record : Option String → Store Event → Option ℕ
  find_record none s = none
  find_record (some id) s = if str_eq id "" then none else get id s.conversations

  unfoldable pub begin_unseen :
      ℕ → String → BeginRunCommand → Store Event → Store Event × BeginRunOutcome Event
  begin_unseen now uuid c s = elim (find_record c.conversation_id s) [
    | none ↦ open_fresh now uuid c s
    | some p ↦
        if str_eq (s.heap p).user_id c.user_id
        then if ltb s.ttl_ms (now - (s.heap p).updated_at)
          then open_fresh now uuid c s
          else begin_on now c p s
        else (s, forbidden)
  ]

  -- The guards after `this.prune(now)`.
  unfoldable pub begin_pruned :
      ℕ → String → BeginRunCommand → Store Event → Store Event × BeginRunOutcome Event
  begin_pruned now uuid c s = elim (get c.request_id s.completed_runs) [
    | some run ↦
        if str_eq run.user_id c.user_id
        then (s, replayed run.conversation_id (s.buffers run.events))
        else (s, forbidden)
    | none ↦ begin_unseen now uuid c s
  ]

  unfoldable pub begin_run :
      ℕ → String → BeginRunCommand → Store Event → Store Event × BeginRunOutcome Event
  begin_run now uuid c s = begin_pruned now uuid c (prune now s)

  unfoldable pub note_event : RunHandle → Event → Store Event → Store Event
  note_event h event s = record s {
    buffers =
        update s.buffers h.buffer (keep_last max_replay_events (s.buffers h.buffer ++ event ∷ []));
  }

  unfoldable pub finish : ℕ → RunHandle → Store Event → Store Event
  finish finished_at h s = record s {
    heap =
        update s.heap h.owner
          (record (s.heap h.owner) { running = none; updated_at = finished_at });
    completed_runs =
        set h.request_id
          (record {
            request_id = h.request_id;
            conversation_id = (s.heap h.owner).conversation_id;
            user_id = h.user_id;
            events = h.buffer;
            finished_at = finished_at;
          })
          s.completed_runs;
  }

  -- `owner.messages.push(…)` and the trim.
  unfoldable pub push_answer : ℕ → RunHandle → String → Store Event → Store Event
  push_answer at h text s =
      let r = s.heap h.owner in
      let message : StoredMessage = record { role = assistant; content = text; at = at } in
      record s {
        heap =
            update s.heap h.owner
              (record r { messages = trim_messages (r.messages ++ message ∷ []) });
      }

  -- The clock is read once for the message and once in `finish`.
  unfoldable pub succeed : ℕ → ℕ → RunHandle → String → Store Event → Store Event
  succeed at finished_at h text s =
      if holds_lock h (s.heap h.owner).running
      then finish finished_at h (push_answer at h text s)
      else s

  unfoldable pub fail : ℕ → RunHandle → Store Event → Store Event
  fail finished_at h s = if holds_lock h (s.heap h.owner).running then finish finished_at h s else s
