-- ===== src/Copilot/ConversationStore/Replay.antt =====
-- The replay of a finished run in copilot/kernel/conversation-store.ts.
use newbie_modules.Common.{
  ℕ, ◌-◌, ◌≤◌, String, ◌≡◌, refl, some, true, not, get, get-select, get-set_self, arith, ltb,
  eq_refl, ==_refl,
}
use newbie_modules.Copilot.ConversationStore.State.{
  Store, BeginRunCommand, CompletedRun, RunHandle, replayed, holds_lock,
}
use newbie_modules.Copilot.ConversationStore.Operations.{
  prune, begin_run, begin_pruned, finish, push_answer, succeed, fail,
}

module _ {Event : Type 0} where
  finished_run : ℕ → RunHandle → Store Event → CompletedRun
  finished_run finished_at h s = record {
    request_id = h.request_id;
    conversation_id = (s.heap h.owner).conversation_id;
    user_id = h.user_id;
    events = h.buffer;
    finished_at = finished_at;
  }

  retained :
      (now finished_at : ℕ) (h : RunHandle) (s : Store Event)
      → now - finished_at ≤ s.retention_ms
      → get h.request_id (prune now (finish finished_at h s)).completed_runs
        ≡ some (finished_run finished_at h s)
  unfolding prune finish finished_run
  retained now finished_at h s fresh =
      get-select (λ (run : CompletedRun). not (ltb s.retention_ms (now - run.finished_at)))
        h.request_id _ _ (get-set_self h.request_id _ s.completed_runs) (ground arith)

  begin_run-finish :
      (now finished_at : ℕ) (uuid : String) (c : BeginRunCommand) (h : RunHandle) (s : Store Event)
      → c.request_id ≡ h.request_id
      → c.user_id ≡ h.user_id
      → now - finished_at ≤ s.retention_ms
      → begin_run now uuid c (finish finished_at h s) ≡ (
        prune now (finish finished_at h s),
        replayed (s.heap h.owner).conversation_id (s.buffers h.buffer),
      )
  unfolding begin_run begin_pruned finished_run
  begin_run-finish now finished_at uuid c h s request same fresh =
      rw (request, retained now finished_at h s fresh, begin_pruned, same, eq_refl h.user_id)
        (unfold prune finish in refl)

  -- A run that still holds its lock, settled either way, is replayed to its user for as long as it
  -- is retained: the same request is answered with exactly the buffered events, in order.
  pub settle-replay :
      (now at finished_at : ℕ) (uuid text : String) (c : BeginRunCommand) (h : RunHandle)
      (s : Store Event)
      → holds_lock h (s.heap h.owner).running ≡ true
      → c.request_id ≡ h.request_id
      → c.user_id ≡ h.user_id
      → now - finished_at ≤ s.retention_ms
      → let answer = replayed (s.heap h.owner).conversation_id (s.buffers h.buffer) in
        ((begin_run now uuid c (succeed at finished_at h text s)).1 ≡ answer)
        × ((begin_run now uuid c (fail finished_at h s)).1 ≡ answer)
  unfolding succeed fail push_answer
  settle-replay now at finished_at uuid text c h s holds request same fresh = (
    rw
        (
          holds,
          begin_run-finish now finished_at uuid c h (push_answer at h text s) request same fresh,
        )
        (rw (==_refl h.owner)),
    rw (holds, begin_run-finish now finished_at uuid c h s request same fresh),
  )
