-- ===== src/Copilot/ConversationStore/Outcomes.antt =====
-- The decision table of `beginRun` in copilot/kernel/conversation-store.ts, as a relation.
use newbie_modules.Common.{
  ℕ, ◌-◌, ◌≤◌, ◌<◌, String, ◌≡◌, ◌≢◌, ◌⊎◌, inl, inr, none, some, get, arith, Option-cases,
  Bool-cases, str_eq, eq_iff, ltb, ==_refl,
}
use newbie_modules.Copilot.ConversationStore.State.{
  Store, BeginRunCommand, CompletedRun, RunLock, BeginRunOutcome, conflict, replayed, forbidden,
}
use newbie_modules.Copilot.ConversationStore.Operations.{
  prune, start, begin_on, allocate, open_fresh, find_record, begin_unseen, begin_pruned, begin_run,
}

module _ {Event : Type 0} (now : ℕ) (uuid : String) (c : BeginRunCommand) (s : Store Event) where
  -- The caller has no live conversation of that name: it names none, or one that has expired.
  abbrev pub HasNoLive : Type 0
  HasNoLive =
      (find_record c.conversation_id s ≡ none)
      ⊎ ((p : ℕ) × (find_record c.conversation_id s ≡ some p)
          × ((s.heap p).user_id ≡ c.user_id)
          × (s.ttl_ms < now - (s.heap p).updated_at))

  -- What `beginRun` may answer on the pruned store, with the state it leaves.
  pub data Begun : Store Event × BeginRunOutcome Event → Type 0 where
    replay_own :
        (run : CompletedRun)
        → get c.request_id s.completed_runs ≡ some run
        → run.user_id ≡ c.user_id
        → Begun (s, replayed run.conversation_id (s.buffers run.events))
    refuse_replay :
        (run : CompletedRun)
        → get c.request_id s.completed_runs ≡ some run
        → run.user_id ≢ c.user_id
        → Begun (s, forbidden)
    refuse_foreign :
        (p : ℕ)
        → get c.request_id s.completed_runs ≡ none
        → find_record c.conversation_id s ≡ some p
        → (s.heap p).user_id ≢ c.user_id
        → Begun (s, forbidden)
    refuse_busy :
        (p : ℕ) (lock : RunLock)
        → get c.request_id s.completed_runs ≡ none
        → find_record c.conversation_id s ≡ some p
        → (s.heap p).user_id ≡ c.user_id
        → now - (s.heap p).updated_at ≤ s.ttl_ms
        → (s.heap p).running ≡ some lock
        → Begun (s, conflict (s.heap p).conversation_id lock.request_id)
    resume :
        (p : ℕ)
        → get c.request_id s.completed_runs ≡ none
        → find_record c.conversation_id s ≡ some p
        → (s.heap p).user_id ≡ c.user_id
        → now - (s.heap p).updated_at ≤ s.ttl_ms
        → (s.heap p).running ≡ none
        → Begun (start now c p s)
    open_new :
        get c.request_id s.completed_runs ≡ none
        → HasNoLive
        → Begun (start now c s.next_record (allocate now uuid c s))

  allocate-idle : ((allocate now uuid c s).heap s.next_record).running ≡ none
  unfolding allocate
  allocate-idle = rw (==_refl s.next_record)

  pub open_fresh_lem : open_fresh now uuid c s ≡ start now c s.next_record (allocate now uuid c s)
  unfolding open_fresh begin_on
  open_fresh_lem = rw (allocate-idle, begin_on)

  begin_live-Begun :
      (p : ℕ)
      → get c.request_id s.completed_runs ≡ none
      → find_record c.conversation_id s ≡ some p
      → (s.heap p).user_id ≡ c.user_id
      → now - (s.heap p).updated_at ≤ s.ttl_ms
      → Begun (begin_on now c p s)
  unfolding begin_on
  begin_live-Begun p fresh found own live = elim (Option-cases (s.heap p).running) [
    | inl idle ↦ rw (idle, begin_on) (resume p fresh found own live idle)
    | inr (lock, busy) ↦ rw (busy, begin_on) (refuse_busy p lock fresh found own live busy)
  ]

  begin_found-Begun :
      (p : ℕ)
      → get c.request_id s.completed_runs ≡ none
      → find_record c.conversation_id s ≡ some p
      → Begun (begin_unseen now uuid c s)
  unfolding begin_unseen
  begin_found-Begun p fresh found = elim (Bool-cases (str_eq (s.heap p).user_id c.user_id)) [
    | inr foreign ↦
        rw (found, begin_unseen, foreign)
          (refuse_foreign p fresh found (λ e. ground (arith, eq_iff (s.heap p).user_id c.user_id)))
    | inl own ↦ elim (Bool-cases (ltb s.ttl_ms (now - (s.heap p).updated_at))) [
      | inl expired ↦
          rw (found, begin_unseen, own, expired, open_fresh_lem)
            (open_new fresh
              (inr (p, found, (eq_iff (s.heap p).user_id c.user_id).0 own, ground arith)))
      | inr live ↦
          rw (found, begin_unseen, own, live)
            (begin_live-Begun p fresh found ((eq_iff (s.heap p).user_id c.user_id).0 own)
              (ground arith))
    ]
  ]

  begin_unseen-Begun : get c.request_id s.completed_runs ≡ none → Begun (begin_unseen now uuid c s)
  unfolding begin_unseen
  begin_unseen-Begun fresh = elim (Option-cases (find_record c.conversation_id s)) [
    | inl missing ↦ rw (missing, begin_unseen, open_fresh_lem) (open_new fresh (inl missing))
    | inr (p, found) ↦ begin_found-Begun p fresh found
  ]

  pub begin_pruned-Begun : Begun (begin_pruned now uuid c s)
  unfolding begin_pruned
  begin_pruned-Begun = elim (Option-cases (get c.request_id s.completed_runs)) [
    | inl fresh ↦ rw (fresh, begin_pruned) (begin_unseen-Begun fresh)
    | inr (run, known) ↦ elim (Bool-cases (str_eq run.user_id c.user_id)) [
      | inl own ↦
          rw (known, begin_pruned, own)
            (replay_own run known ((eq_iff run.user_id c.user_id).0 own))
      | inr foreign ↦
          rw (known, begin_pruned, foreign)
            (refuse_replay run known (λ e. ground (arith, eq_iff run.user_id c.user_id)))
    ]
  ]

-- Every answer of `beginRun` is the one that its decision table gives on the pruned store.
pub begin_run-Begun :
    {Event : Type 0} (now : ℕ) (uuid : String) (c : BeginRunCommand) (s : Store Event)
    → Begun now uuid c (prune now s) (begin_run now uuid c s)
unfolding begin_run
begin_run-Begun now uuid c s = begin_pruned-Begun now uuid c (prune now s)
