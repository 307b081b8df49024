-- ===== src/Copilot/ConversationStore/Retention.antt =====
-- What the eviction of copilot/kernel/conversation-store.ts keeps.
use newbie_modules.Common.{
  ℕ, zero, suc, String, ◌≡◌, ◌≢◌, some, [], ◌∷◌, List, Bool, true, false, get, get-delete, delete,
  select, leb, All, Bool-cases, inl, inr, arith, str_eq_of_ne, Dict,
}
use newbie_modules.Copilot.ConversationStore.State.{ConversationRecord, is_running, values}
use newbie_modules.Copilot.ConversationStore.Eviction.{
  insert_by_age, sort_by_age, evict_loop, evict_conversations,
}

module _ (P : ℕ → Type 0) where
  All-select : (p : ℕ → Bool) (rs : List ℕ) → All P rs → All P (select p rs)
  All-select p [] h = tt
  All-select p (r ∷ rs) (q, h) = ground (arith, All-select p rs h)

  All-insert_by_age :
      (heap : ℕ → ConversationRecord) (r : ℕ) (rs : List ℕ)
      → P r
      → All P rs
      → All P (insert_by_age heap r rs)
  All-insert_by_age heap r [] p h = (p, tt)
  All-insert_by_age heap r (q ∷ qs) p (k, h) =
      elim (Bool-cases (leb (heap r).updated_at (heap q).updated_at)) [
        | inl older ↦ rw older (p, (k, h))
        | inr newer ↦ rw newer (k, All-insert_by_age heap r qs p h)
      ]

  All-sort_by_age :
      (heap : ℕ → ConversationRecord) (rs : List ℕ) → All P rs → All P (sort_by_age heap rs)
  All-sort_by_age heap [] h = tt
  All-sort_by_age heap (r ∷ rs) (p, h) =
      All-insert_by_age heap r (sort_by_age heap rs) p (All-sort_by_age heap rs h)

module _ (heap : ℕ → ConversationRecord) where
  -- Every record in the map is the one found under its own id.
  abbrev pub IsKeyed : Dict ℕ → Type 0
  IsKeyed m = All (λ r. get (heap r).conversation_id m ≡ some r) (values m)

  evict_loop-kept :
      (k : String) (p excess : ℕ) (rs : List ℕ) (m : Dict ℕ)
      → All (λ r. is_running (heap r) ≡ false → (heap r).conversation_id ≢ k) rs
      → get k m ≡ some p
      → get k (evict_loop heap excess rs m) ≡ some p
  unfolding evict_loop
  evict_loop-kept k p zero rs m h found = found
  evict_loop-kept k p (suc excess) [] m h found = found
  evict_loop-kept k p (suc excess) (r ∷ rs) m (q, h) found =
      elim (Bool-cases (is_running (heap r))) [
        | inl busy ↦ rw (busy, evict_loop) (evict_loop-kept k p (suc excess) rs m h found)
        | inr idle ↦
            rw (idle, evict_loop)
              (evict_loop-kept k p excess rs (delete (heap r).conversation_id m) h
                (rw (get-delete, str_eq_of_ne (heap r).conversation_id k (q idle)) found))
      ]

  others_idle :
      (k : String) (p : ℕ) (m : Dict ℕ) (rs : List ℕ)
      → get k m ≡ some p
      → is_running (heap p) ≡ true
      → All (λ r. get (heap r).conversation_id m ≡ some r) rs
      → All (λ r. is_running (heap r) ≡ false → (heap r).conversation_id ≢ k) rs
  others_idle k p m [] found busy h = tt
  others_idle k p m (r ∷ rs) found busy (q, h) = (
    λ idle e. let same : p ≡ r = ground (arith, rw e at q) in ground arith,
    others_idle k p m rs found busy h,
  )

  -- The eviction never drops a conversation with a run in flight, however many conversations its
  -- user has: the run's lock stays where the next request finds it.
  pub evict_conversations-running :
      (user_id k : String) (p : ℕ) (m : Dict ℕ)
      → IsKeyed m
      → get k m ≡ some p
      → is_running (heap p) ≡ true
      → get k (evict_conversations heap user_id m) ≡ some p
  unfolding evict_conversations
  evict_conversations-running user_id k p m keyed found busy =
      let P : ℕ → Type 0 = λ r. is_running (heap r) ≡ false → (heap r).conversation_id ≢ k in
      evict_loop-kept k p _ _ m
        (All-sort_by_age P heap _
          (All-select P _ (values m) (others_idle k p m (values m) found busy keyed)))
        found
