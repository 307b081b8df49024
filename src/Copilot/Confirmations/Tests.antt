-- ===== src/Copilot/Confirmations/Tests.antt =====
-- Approval gates at concrete inputs.
use newbie_modules.Common.{◌≡◌, refl, false, [], ◌∷◌, get, set, delete}
use newbie_modules.Copilot.Confirmations.Manager.{
  Manager, PendingEntry, ConfirmationRequestInput, confirmed, by_user, timeout, resolved, forbidden,
  denied_for, new_manager, new_pending, finalize, request, resolve_pending, expire, finalize_all,
  abort,
}
use newbie_modules.Copilot.Confirmations.Gate.{IsWaiting, IsOver, Held}
use newbie_modules.Copilot.Confirmations.Lifecycle.{IsNew, here, next, decided, expired, Reach-Held}
use newbie_modules.Copilot.Confirmations.Ending.{waiting_ends}

abbrev input : ConfirmationRequestInput
input = record {
  user_id = "ann";
  conversation_id = "c";
  request_id = "r";
  tool_call_id = "t";
  tool_name = "delete";
}

abbrev empty : Manager
empty = new_manager 300000

abbrev asked : Manager
asked = (request "g" input 7 false 50 empty).0

denies_late : (expire "g" (abort 7 asked)).settled ≡ (abort 7 asked).settled
unfolding expire abort finalize_all finalize request get set delete
denies_late = refl

empty-IsNew : IsNew "g" empty
unfolding get
empty-IsNew = record { absent = refl; unarmed = refl; unsettled = refl }

Reach-Held_example : Held "g" (expire "g" (resolve_pending "bob" "g" confirmed asked).0)
Reach-Held_example = Reach-Held "g" input 7 false 50 empty empty-IsNew (
    next (next here (decided "bob" "g" confirmed asked))
      (expired "g" (resolve_pending "bob" "g" confirmed asked).0))

abbrev entry : PendingEntry
entry = record { pending = new_pending "g" input 50 300000; signal = 7; settled = false }

waits_for_ann : IsWaiting [] "g" entry asked
unfolding request get set
waits_for_ann = record {
  found = refl;
  open_entry = refl;
  armed = refl;
  listens = refl;
  unsettled = refl;
}

waiting_ends_example :
    (IsOver "g" (expire "g" asked)
      × ((expire "g" asked).settled ≡ ("g", denied_for timeout) ∷ asked.settled))
    × IsOver "g" (abort 7 asked)
    × (let (t, answer) = resolve_pending "ann" "g" confirmed asked in
        IsOver "g" t
        × (answer ≡ resolved)
        × (t.settled ≡ ("g", record { decision = confirmed; reason = by_user }) ∷ asked.settled))
    × (resolve_pending "bob" "g" confirmed asked ≡ (asked, forbidden))
waiting_ends_example = waiting_ends "g" entry asked waits_for_ann confirmed "bob" refl
