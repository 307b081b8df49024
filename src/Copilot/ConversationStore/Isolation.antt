-- ===== src/Copilot/ConversationStore/Isolation.antt =====
-- Whose data copilot/kernel/conversation-store.ts hands out, and that a busy conversation is left
-- alone.
use newbie_modules.Common.{ℕ, String, ◌≡◌, ◌⊎◌, inl, inr, refl, none, some, [], map, get, ==_refl}
use newbie_modules.Copilot.ConversationStore.State.{
  Store, BeginRunCommand, BeginRunOutcome, CompletedRun, started, conflict, replayed, forbidden,
  to_history,
}
use newbie_modules.Copilot.ConversationStore.Operations.{
  prune, start, allocate, find_record, begin_run,
}
use newbie_modules.Copilot.ConversationStore.Outcomes.{
  Begun, replay_own, refuse_replay, refuse_foreign, refuse_busy, resume, open_new, begin_run-Begun,
}

module _ {Event : Type 0} where
  -- The data in an answer belongs to the user of the command. A replay is the buffer of a finished
  -- run of that user and that request, a history is that of an idle conversation of that user, and
  -- a lock is disclosed only to the conversation's user.
  abbrev pub IsOwn : BeginRunCommand → Store Event → BeginRunOutcome Event → Type 0
  IsOwn c s (started h) =
      (h.history ≡ [])
      ⊎ ((p : ℕ) × (find_record c.conversation_id s ≡ some p)
          × ((s.heap p).user_id ≡ c.user_id)
          × ((s.heap p).running ≡ none)
          × (h.history ≡ map to_history (s.heap p).messages))
  IsOwn c s (conflict id request_id) =
      (p : ℕ) × (find_record c.conversation_id s ≡ some p)
      × ((s.heap p).user_id ≡ c.user_id)
      × ((s.heap p).conversation_id ≡ id)
  IsOwn c s (replayed id events) =
      (run : CompletedRun) × (get c.request_id s.completed_runs ≡ some run)
      × (run.user_id ≡ c.user_id)
      × (run.conversation_id ≡ id)
      × (events ≡ s.buffers run.events)
  IsOwn c s forbidden = Unit

  start-IsOwn_fresh :
      (now : ℕ) (uuid : String) (c : BeginRunCommand) (s : Store Event)
      → IsOwn c s (start now c s.next_record (allocate now uuid c s)).1
  unfolding start allocate
  start-IsOwn_fresh now uuid c s = inl (rw (==_refl s.next_record))

  start-IsOwn :
      (now : ℕ) (c : BeginRunCommand) (p : ℕ) (s : Store Event)
      → find_record c.conversation_id s ≡ some p
      → (s.heap p).user_id ≡ c.user_id
      → (s.heap p).running ≡ none
      → IsOwn c s (start now c p s).1
  unfolding start
  start-IsOwn now c p s found own idle = inr (p, found, own, idle, refl)

  Begun-IsOwn :
      {now : ℕ} {uuid : String} {c : BeginRunCommand} {s : Store Event}
      {r : Store Event × BeginRunOutcome Event}
      → Begun now uuid c s r
      → IsOwn c s r.1
  Begun-IsOwn (replay_own run known own) = (run, known, own, refl, refl)
  Begun-IsOwn (refuse_replay run known foreign) = tt
  Begun-IsOwn (refuse_foreign p fresh found foreign) = tt
  Begun-IsOwn (refuse_busy p lock fresh found own live busy) = (p, found, own, refl)
  Begun-IsOwn {now} {c} {s} (resume p fresh found own live idle) =
      start-IsOwn now c p s found own idle
  Begun-IsOwn {now} {uuid} {c} {s} (open_new fresh missing) = start-IsOwn_fresh now uuid c s

-- Whatever `beginRun` answers, all it hands out belongs to the user who asks: no history, replay
-- or lock of another user's conversation leaves the store.
pub begin_run-IsOwn :
    {Event : Type 0} (now : ℕ) (uuid : String) (c : BeginRunCommand) (s : Store Event)
    → IsOwn c (prune now s) (begin_run now uuid c s).1
begin_run-IsOwn now uuid c s = Begun-IsOwn (begin_run-Begun now uuid c s)
