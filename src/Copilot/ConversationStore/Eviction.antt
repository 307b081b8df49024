-- ===== src/Copilot/ConversationStore/Eviction.antt =====
-- `evictConversations` of copilot/kernel/conversation-store.ts.
use newbie_modules.Common.{
  ℕ, zero, suc, ◌-◌, String, true, false, List, [], ◌∷◌, leb, if◌then◌else◌, str_eq, length, select,
  Dict, delete,
}
use newbie_modules.Copilot.ConversationStore.State.{
  ConversationRecord, is_running, values, max_conversations_per_user,
}

-- `owned.sort((a, b) => a.updatedAt - b.updatedAt)`, a stable sort.
abbrev pub insert_by_age : (ℕ → ConversationRecord) → ℕ → List ℕ → List ℕ
insert_by_age heap r [] = r ∷ []
insert_by_age heap r (q ∷ qs) =
    if leb (heap r).updated_at (heap q).updated_at then r ∷ q ∷ qs else q ∷ insert_by_age heap r qs

abbrev pub sort_by_age : (ℕ → ConversationRecord) → List ℕ → List ℕ
sort_by_age heap [] = []
sort_by_age heap (r ∷ rs) = insert_by_age heap r (sort_by_age heap rs)

-- The loop of `evictConversations`; `excess` counts what is still to be dropped.
unfoldable pub evict_loop : (ℕ → ConversationRecord) → ℕ → List ℕ → Dict ℕ → Dict ℕ
evict_loop heap zero rs m = m
evict_loop heap (suc excess) [] m = m
evict_loop heap (suc excess) (r ∷ rs) m = elim (is_running (heap r)) [
  | true ↦ evict_loop heap (suc excess) rs m
  | false ↦ evict_loop heap excess rs (delete (heap r).conversation_id m)
]

unfoldable pub evict_conversations : (ℕ → ConversationRecord) → String → Dict ℕ → Dict ℕ
evict_conversations heap user_id m =
    let owned = select (λ r. str_eq (heap r).user_id user_id) (values m) in
    evict_loop heap (length owned - max_conversations_per_user) (sort_by_age heap owned) m
