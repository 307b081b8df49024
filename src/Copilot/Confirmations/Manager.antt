-- ===== src/Copilot/Confirmations/Manager.antt =====
-- `InMemoryConfirmationManager` of copilot/kernel/confirmation-manager.ts. The random id, the clock
-- and the signal's `aborted` are arguments. `timers` holds the ids whose timeout is armed,
-- `listeners` the abort listeners with their signals, and `settled` each call of a promise's
-- `resolve`, newest first. The arguments that the card shows are left out.
use newbie_modules.Common.{
  ℕ, ◌+◌, String, Bool, false, ◌&&◌, not, none, some, List, [], ◌∷◌, select, any, ◌==◌,
  if◌then◌else◌, str_eq, Dict, get, set, delete,
}

pub data ConfirmationDecision : Type 0 where
  confirmed denied : ConfirmationDecision

pub data ConfirmationReason : Type 0 where
  by_user timeout aborted : ConfirmationReason

pub record ConfirmationOutcome : Type 0 where
  pub decision : ConfirmationDecision
  pub reason : ConfirmationReason

pub record ConfirmationRequestInput : Type 0 where
  pub user_id : String
  pub conversation_id : String
  pub request_id : String
  pub tool_call_id : String
  pub tool_name : String

pub record PendingConfirmation : Type 0 where
  pub input : ConfirmationRequestInput
  pub confirmation_id : String
  pub created_at : ℕ
  pub expires_at : ℕ

pub data ConfirmationResolveResult : Type 0 where
  resolved not_found forbidden : ConfirmationResolveResult

-- A signal is a reference.
pub record PendingEntry : Type 0 where
  pub pending : PendingConfirmation
  pub signal : ℕ
  pub settled : Bool

pub record Manager : Type 0 where
  pub pending : Dict PendingEntry
  pub timeout_ms : ℕ
  pub timers : List String
  pub listeners : List (ℕ × String)
  pub settled : List (String × ConfirmationOutcome)

abbrev pub new_manager : ℕ → Manager
new_manager timeout_ms = record {
  pending = [];
  timeout_ms = timeout_ms;
  timers = [];
  listeners = [];
  settled = [];
}

abbrev pub denied_for : ConfirmationReason → ConfirmationOutcome
denied_for reason = record { decision = denied; reason = reason }

abbrev pub without : String → List String → List String
without id = select (λ j. not (str_eq j id))

-- `removeEventListener`
abbrev pub without_listener : ℕ → String → List (ℕ × String) → List (ℕ × String)
without_listener signal id = select (λ l. not (l.0 == signal && str_eq l.1 id))

unfoldable pub finalize : String → ConfirmationOutcome → Manager → Manager
finalize id outcome m = elim (get id m.pending) [
  | none ↦ m
  | some e ↦ if e.settled then m else record m {
    timers = without id m.timers;
    listeners = without_listener e.signal id m.listeners;
    pending = delete id m.pending;
    settled = (id, outcome) ∷ m.settled;
  }
]

abbrev pub new_pending : String → ConfirmationRequestInput → ℕ → ℕ → PendingConfirmation
new_pending id input now timeout_ms = record {
  input = input;
  confirmation_id = id;
  created_at = now;
  expires_at = now + timeout_ms;
}

-- The timer is set before the test of the signal, and cleared if it is aborted.
unfoldable pub request :
    String → ConfirmationRequestInput → ℕ → Bool → ℕ → Manager → Manager × PendingConfirmation
request id input signal is_aborted now m =
    let pending = new_pending id input now m.timeout_ms in
    let timed = record m { timers = id ∷ m.timers } in
    (
      if is_aborted
          then record timed {
            timers = without id timed.timers;
            settled = (id, denied_for aborted) ∷ m.settled;
          }
          else record timed {
            listeners = (signal, id) ∷ m.listeners;
            pending =
                set id (record { pending = pending; signal = signal; settled = false }) m.pending;
          },
      pending,
    )

unfoldable pub resolve_pending :
    String → String → ConfirmationDecision → Manager → Manager × ConfirmationResolveResult
resolve_pending user_id id decision m = elim (get id m.pending) [
  | none ↦ (m, not_found)
  | some e ↦
      if str_eq e.pending.input.user_id user_id
      then (finalize id (record { decision = decision; reason = by_user }) m, resolved)
      else (m, forbidden)
]

-- The timer of `id` goes off, if it is armed.
unfoldable pub expire : String → Manager → Manager
expire id m =
    if any (λ j. str_eq j id) m.timers
    then finalize id (denied_for timeout) (record m { timers = without id m.timers })
    else m

abbrev pub listening : ℕ → List (ℕ × String) → List String
listening signal [] = []
listening signal ((other, id) ∷ ls) =
    let rest = listening signal ls in if other == signal then id ∷ rest else rest

unfoldable pub finalize_all : List String → Manager → Manager
finalize_all [] m = m
finalize_all (id ∷ ids) m = finalize_all ids (finalize id (denied_for aborted) m)

-- The signal is aborted: its listeners are called, each once.
unfoldable pub abort : ℕ → Manager → Manager
abort signal m =
    finalize_all (listening signal m.listeners)
      (record m { listeners = select (λ l. not (l.0 == signal)) m.listeners })
