-- ===== src/Copilot/Confirmations/Lifecycle.antt =====
-- Gates from their request on (copilot/kernel/confirmation-manager.ts).
use newbie_modules.Common.{
  ℕ, ◌≡◌, refl, subst, String, Bool, true, false, none, ◌∷◌, str_eq, get, get-set, Bool-cases, inl,
  inr, arith,
}
use text.Mathlib.TextEquality.{eq_iff}
use text.Mathlib.TextPositions.{eq_refl}
use newbie_modules.Copilot.Confirmations.Manager.{
  Manager, PendingEntry, ConfirmationRequestInput, ConfirmationDecision, new_pending, request,
  resolve_pending, expire, abort,
}
use newbie_modules.Copilot.Confirmations.Gate.{
  mentions, settlements, waits, over, Held, armed-without, armed-without_self,
}
use newbie_modules.Copilot.Confirmations.Calls.{resolve_pending-Held, expire-Held, abort-Held}

-- A random id that was not given out before.
pub record IsNew (id : String) (m : Manager) : Type 0 where
  pub absent : get id m.pending ≡ none
  pub unarmed : mentions id m.timers ≡ false
  pub unsettled : settlements id m.settled ≡ 0

-- One call, or an event that the manager waits for.
pub data Step : Manager → Manager → Type 0 where
  requested :
      (id : String) (input : ConfirmationRequestInput) (signal : ℕ) (is_aborted : Bool) (now : ℕ)
      (m : Manager)
      → IsNew id m
      → Step m (request id input signal is_aborted now m).0
  decided :
      (user_id id : String) (decision : ConfirmationDecision) (m : Manager)
      → Step m (resolve_pending user_id id decision m).0
  expired : (id : String) (m : Manager) → Step m (expire id m)
  run_aborted : (signal : ℕ) (m : Manager) → Step m (abort signal m)

pub data Reach (m : Manager) : Manager → Type 0 where
  here : Reach m m
  next : {t u : Manager} → Reach m t → Step t u → Reach m u

abbrev new_entry : String → ConfirmationRequestInput → ℕ → ℕ → Manager → PendingEntry
new_entry id input signal now m = record {
  pending = new_pending id input now m.timeout_ms;
  signal = signal;
  settled = false;
}

request-IsHeld :
    (id : String) (input : ConfirmationRequestInput) (signal : ℕ) (is_aborted : Bool) (now : ℕ)
    (m : Manager)
    → IsNew id m
    → Held id (request id input signal is_aborted now m).0
unfolding request
request-IsHeld id input signal true now m h = over (record {
  gone = h.absent;
  disarmed = armed-without_self id (id ∷ m.timers);
  once = rw (eq_refl id) (omega (arith, h.unsettled));
})
request-IsHeld id input signal false now m h = waits (new_entry id input signal now m) (record {
  found = rw (get-set id id (new_entry id input signal now m) m.pending, eq_refl id) refl;
  open_entry = refl;
  armed = ground (arith, eq_refl id);
  listens = ground (arith, eq_refl id);
  unsettled = h.unsettled;
})

-- A new gate is another one.
new-other : (id j : String) (m : Manager) → IsNew j m → Held id m → str_eq j id ≡ false
new-other id j m h held = elim (Bool-cases (str_eq j id)) [
  | inr other ↦ other
  | inl same ↦
      let e : j ≡ id = (eq_iff j id).0 same in
      let mine : IsNew id m = subst (λ k. IsNew k m) e h in
      absurd (elim held [
        | waits own w ↦ ground (arith, mine.absent, w.found)
        | over o ↦ ground (arith, mine.unsettled, o.once)
      ])
]

request-Held :
    (id j : String) (input : ConfirmationRequestInput) (signal : ℕ) (is_aborted : Bool) (now : ℕ)
    (m : Manager)
    → str_eq j id ≡ false
    → Held id m
    → Held id (request j input signal is_aborted now m).0
unfolding request
request-Held id j input signal true now m other (waits e w) = waits e (record {
  found = w.found;
  open_entry = w.open_entry;
  armed = rw (armed-without id j (j ∷ m.timers) other, other) w.armed;
  listens = w.listens;
  unsettled = rw other (omega (arith, w.unsettled));
})
request-Held id j input signal true now m other (over o) = over (record {
  gone = o.gone;
  disarmed = rw (armed-without id j (j ∷ m.timers) other, other) o.disarmed;
  once = rw other (omega (arith, o.once));
})
request-Held id j input signal false now m other (waits e w) = waits e (record {
  found = rw (get-set j id _ m.pending, other) w.found;
  open_entry = w.open_entry;
  armed = ground (arith, w.armed);
  listens = ground (arith, w.listens);
  unsettled = w.unsettled;
})
request-Held id j input signal false now m other (over o) = over (record {
  gone = rw (get-set j id _ m.pending, other) o.gone;
  disarmed = rw other o.disarmed;
  once = o.once;
})

Step-Held : (id : String) {t u : Manager} → Step t u → Held id t → Held id u
Step-Held id (requested j input signal is_aborted now m h) held =
    request-Held id j input signal is_aborted now m (new-other id j m h held) held
Step-Held id (decided user_id j decision m) held = resolve_pending-Held id user_id j decision m held
Step-Held id (expired j m) held = expire-Held id j m held
Step-Held id (run_aborted signal m) held = abort-Held id signal m held

Reach-Held_from : (id : String) {t u : Manager} → Reach t u → Held id t → Held id u
Reach-Held_from id here held = held
Reach-Held_from id (next reach step) held = Step-Held id step (Reach-Held_from id reach held)

-- From its request on, under every order of further requests with new ids, decisions, timeouts and
-- aborts, a gate either waits with its timeout armed, a listener on its run's signal and its promise
-- open, or is over, with its timeout cleared and its promise settled exactly once.
pub Reach-Held :
    (id : String) (input : ConfirmationRequestInput) (signal : ℕ) (is_aborted : Bool) (now : ℕ)
    (m : Manager) {t : Manager}
    → IsNew id m
    → Reach (request id input signal is_aborted now m).0 t
    → Held id t
Reach-Held id input signal is_aborted now m h reach =
    Reach-Held_from id reach (request-IsHeld id input signal is_aborted now m h)
