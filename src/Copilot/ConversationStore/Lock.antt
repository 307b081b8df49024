-- ===== src/Copilot/ConversationStore/Lock.antt =====
-- The run lock of copilot/kernel/conversation-store.ts, and what it does not cover.
use newbie_modules.Common.{
  ℕ, ◌-◌, ◌≤◌, ◌<◌, String, ◌≡◌, ◌≢◌, refl, none, some, [], get, get-select, str_eq_of_ne, arith,
  eq_iff,
}
use newbie_modules.Copilot.ConversationStore.State.{
  Store, BeginRunCommand, RunHandle, RunLock, started, conflict,
}
use newbie_modules.Copilot.ConversationStore.Outcomes.{open_fresh_lem}
use newbie_modules.Copilot.ConversationStore.Operations.{
  prune, start, allocate, find_record, begin_run, begin_pruned, begin_unseen, begin_on,
}

module _ {Event : Type 0} where
  prune-get_running :
      (now p : ℕ) (id : String) (lock : RunLock) (s : Store Event)
      → get id s.conversations ≡ some p
      → (s.heap p).running ≡ some lock
      → get id (prune now s).conversations ≡ some p
  unfolding prune
  prune-get_running now p id lock s found busy = get-select _ id p s.conversations found (rw busy)

  find_record-prune :
      (now p : ℕ) (id : String) (lock : RunLock) (s : Store Event)
      → id ≢ ""
      → get id s.conversations ≡ some p
      → (s.heap p).running ≡ some lock
      → find_record (some id) (prune now s) ≡ some p
  unfolding find_record
  find_record-prune now p id lock s named found busy =
      rw (str_eq_of_ne id "" named) (prune-get_running now p id lock s found busy)

  begin_pruned_busy :
      (now p : ℕ) (uuid : String) (lock : RunLock) (c : BeginRunCommand) (s : Store Event)
      → get c.request_id s.completed_runs ≡ none
      → find_record c.conversation_id s ≡ some p
      → (s.heap p).user_id ≡ c.user_id
      → (s.heap p).running ≡ some lock
      → now - (s.heap p).updated_at ≤ s.ttl_ms
      → begin_pruned now uuid c s ≡ (s, conflict (s.heap p).conversation_id lock.request_id)
  unfolding begin_pruned begin_unseen begin_on
  begin_pruned_busy now p uuid lock c s unseen found own busy live =
      ground (arith, eq_iff (s.heap p).user_id c.user_id)

  -- The run lock: while a run of a conversation is in flight and the conversation has not expired,
  -- its user's further requests are refused with the request that runs, and the store only loses
  -- its expired entries.
  pub begin_run_busy :
      (now p : ℕ) (uuid id : String) (lock : RunLock) (c : BeginRunCommand) (s : Store Event)
      → c.conversation_id ≡ some id
      → id ≢ ""
      → get c.request_id (prune now s).completed_runs ≡ none
      → get id s.conversations ≡ some p
      → (s.heap p).user_id ≡ c.user_id
      → (s.heap p).running ≡ some lock
      → now - (s.heap p).updated_at ≤ s.ttl_ms
      → begin_run now uuid c s ≡ (prune now s, conflict (s.heap p).conversation_id lock.request_id)
  unfolding begin_run prune
  begin_run_busy now p uuid id lock c s name named unseen found own busy live =
      begin_pruned_busy now p uuid lock c (prune now s) unseen
        (rw name (find_record-prune now p id lock s named found busy)) own busy live

  begin_pruned_stale :
      (now p : ℕ) (uuid : String) (c : BeginRunCommand) (s : Store Event)
      → get c.request_id s.completed_runs ≡ none
      → find_record c.conversation_id s ≡ some p
      → (s.heap p).user_id ≡ c.user_id
      → s.ttl_ms < now - (s.heap p).updated_at
      → begin_pruned now uuid c s ≡ start now c s.next_record (allocate now uuid c s)
  unfolding begin_pruned begin_unseen
  begin_pruned_stale now p uuid c s unseen found own stale =
      ground (arith, eq_iff (s.heap p).user_id c.user_id, open_fresh_lem now uuid c s)

  start-allocate :
      (now p : ℕ) (uuid id : String) (c : BeginRunCommand) (s : Store Event)
      → c.conversation_id ≡ some id
      → p < s.next_record
      → let r = start now c s.next_record (allocate now uuid c s) in
        (h : RunHandle) × (r.1 ≡ started h)
        × (h.conversation_id ≡ id)
        × (h.history ≡ [])
        × (h.owner ≢ p)
        × (r.0.heap p ≡ s.heap p)
  unfolding start allocate
  start-allocate now p uuid id c s name old =
      (_, refl, ground arith, ground arith, omega arith, ground arith)

  -- The lock does not outlive the conversation's time to live: once a run has been in flight for
  -- longer than that, the next request of the same user for the same conversation is started on
  -- a new record with no history, while the first run still holds the lock of the old one.
  pub begin_run_stale :
      (now p : ℕ) (uuid id : String) (lock : RunLock) (c : BeginRunCommand) (s : Store Event)
      → c.conversation_id ≡ some id
      → id ≢ ""
      → get c.request_id (prune now s).completed_runs ≡ none
      → get id s.conversations ≡ some p
      → p < s.next_record
      → (s.heap p).user_id ≡ c.user_id
      → (s.heap p).running ≡ some lock
      → s.ttl_ms < now - (s.heap p).updated_at
      → (h : RunHandle) × ((begin_run now uuid c s).1 ≡ started h)
        × (h.conversation_id ≡ id)
        × (h.history ≡ [])
        × (h.owner ≢ p)
        × (((begin_run now uuid c s).0.heap p).running ≡ some lock)
  unfolding begin_run prune
  begin_run_stale now p uuid id lock c s name named unseen found old own busy stale =
      let (h, answer, same, empty, other, kept) =
        start-allocate now p uuid id c (prune now s) name old in
      let begun =
        begin_pruned_stale now p uuid c (prune now s) unseen
          (rw name (find_record-prune now p id lock s named found busy)) own stale in
      (h, rw begun answer, same, empty, other, rw (begun, kept) busy)

  start-allocate_unnamed :
      (now : ℕ) (uuid : String) (c : BeginRunCommand) (s : Store Event)
      → c.conversation_id ≡ none
      → (h : RunHandle) × ((start now c s.next_record (allocate now uuid c s)).1 ≡ started h)
        × (h.conversation_id ≡ uuid)
        × (h.history ≡ [])
  unfolding start allocate
  start-allocate_unnamed now uuid c s unnamed = (_, refl, ground arith, ground arith)

  find_record_unnamed :
      (c : BeginRunCommand) (s : Store Event)
      → c.conversation_id ≡ none
      → find_record c.conversation_id s ≡ none
  unfolding find_record
  find_record_unnamed c s unnamed = rw unnamed

  begin_pruned_unnamed :
      (now : ℕ) (uuid : String) (c : BeginRunCommand) (s : Store Event)
      → c.conversation_id ≡ none
      → get c.request_id s.completed_runs ≡ none
      → begin_pruned now uuid c s ≡ start now c s.next_record (allocate now uuid c s)
  unfolding begin_pruned begin_unseen
  begin_pruned_unnamed now uuid c s unnamed unseen =
      rw (unseen, begin_pruned, find_record_unnamed c s unnamed, begin_unseen)
        (open_fresh_lem now uuid c s)

  -- A request that names no conversation is always started, under the new id and with no history,
  -- unless a finished run of its request id is retained. A run of the same request id that is in
  -- flight does not stop it.
  pub begin_run_unnamed :
      (now : ℕ) (uuid : String) (c : BeginRunCommand) (s : Store Event)
      → c.conversation_id ≡ none
      → get c.request_id (prune now s).completed_runs ≡ none
      → (h : RunHandle) × ((begin_run now uuid c s).1 ≡ started h)
        × (h.conversation_id ≡ uuid)
        × (h.history ≡ [])
  unfolding begin_run
  begin_run_unnamed now uuid c s unnamed unseen =
      let (h, answer, name, empty) = start-allocate_unnamed now uuid c (prune now s) unnamed in
      (h, rw (begin_pruned_unnamed now uuid c (prune now s) unnamed unseen) answer, name, empty)
