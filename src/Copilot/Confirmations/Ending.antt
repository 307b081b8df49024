-- ===== src/Copilot/Confirmations/Ending.antt =====
-- What ends a gate that waits (copilot/kernel/confirmation-manager.ts).
use newbie_modules.Common.{
  ℕ, ◌≡◌, refl, sym, subst, String, true, false, not, some, List, [], ◌∷◌, select, ◌==◌, str_eq,
  get, get-delete, Option-cases, Bool-cases, inl, inr, arith,
}
use text.Mathlib.TextEquality.{eq_iff}
use text.Mathlib.TextPositions.{eq_refl}
use newbie_modules.Copilot.Confirmations.Manager.{
  Manager, PendingEntry, ConfirmationOutcome, ConfirmationDecision, resolved, forbidden, aborted,
  timeout, by_user, denied_for, without, finalize, resolve_pending, expire, listening, finalize_all,
  abort,
}
use newbie_modules.Copilot.Confirmations.Gate.{
  mentions, is_listening, IsWaiting, IsOver, HeldIn, waits, over, finalize-IsOver, finalize-Held,
  finalize_self, armed-without,
}

finalize-IsOver_kept :
    (id j : String) (outcome : ConfirmationOutcome) (m : Manager)
    → IsOver id m
    → IsOver id (finalize j outcome m)
unfolding finalize
finalize-IsOver_kept id j outcome m o = elim (Bool-cases (str_eq j id)) [
  | inl same ↦
      subst (λ k. IsOver id (finalize k outcome m)) (sym ((eq_iff j id).0 same))
        (finalize_self [] id outcome m (over o))
  | inr other ↦ elim (Option-cases (get j m.pending)) [
    | inl absent ↦ rw (absent, finalize) o
    | inr (e, found) ↦ elim (Bool-cases e.settled) [
      | inl done ↦ rw (found, finalize, done) o
      | inr fresh ↦
          rw (found, finalize, fresh)
            (record {
              gone = rw (get-delete j id m.pending, other) o.gone;
              disarmed = rw (armed-without id j m.timers other) o.disarmed;
              once = rw other (omega (arith, o.once));
            })
    ]
  ]
]

finalize_all-IsOver :
    (todo : List String) (id : String) (m : Manager) → IsOver id m → IsOver id (finalize_all todo m)
unfolding finalize_all
finalize_all-IsOver [] id m o = o
finalize_all-IsOver (j ∷ js) id m o =
    finalize_all-IsOver js id (finalize j (denied_for aborted) m)
      (finalize-IsOver_kept id j (denied_for aborted) m o)

-- A gate that is named in what is left of an abort is over at the end.
finalize_all-ends :
    (todo : List String) (id : String) (m : Manager)
    → mentions id todo ≡ true
    → HeldIn todo id m
    → IsOver id (finalize_all todo m)
unfolding finalize_all
finalize_all-ends [] id m h held = cc
finalize_all-ends (j ∷ js) id m h held = elim (Bool-cases (str_eq j id)) [
  | inl same ↦ finalize_all-IsOver js id (finalize j (denied_for aborted) m) (
      subst (λ k. IsOver id (finalize k (denied_for aborted) m)) (sym ((eq_iff j id).0 same))
        (finalize_self (j ∷ js) id (denied_for aborted) m held))
  | inr other ↦
      finalize_all-ends js id (finalize j (denied_for aborted) m) (rw other at h)
        (finalize-Held js id j (denied_for aborted) m held)
]

listening-mentions :
    (signal : ℕ) (id : String) (ls : List (ℕ × String))
    → is_listening signal id ls ≡ true
    → mentions id (listening signal ls) ≡ true
listening-mentions signal id [] h = cc
listening-mentions signal id ((other, j) ∷ ls) h = ground (arith, listening-mentions signal id ls)

finalize-settled :
    (id : String) (e : PendingEntry) (outcome : ConfirmationOutcome) (m : Manager)
    → get id m.pending ≡ some e
    → e.settled ≡ false
    → (finalize id outcome m).settled ≡ (id, outcome) ∷ m.settled
unfolding finalize
finalize-settled id e outcome m found fresh = rw (found, finalize, fresh) refl

module _ (id : String) (e : PendingEntry) (m : Manager) (w : IsWaiting [] id e m) where
  expire-ends :
      IsOver id (expire id m) × ((expire id m).settled ≡ (id, denied_for timeout) ∷ m.settled)
  unfolding expire
  expire-ends =
      let m' : Manager = record m { timers = without id m.timers } in
      rw w.armed (
        finalize-IsOver id e (denied_for timeout) m' w.found w.open_entry w.unsettled,
        finalize-settled id e (denied_for timeout) m' w.found w.open_entry,
      )

  abort-ends : IsOver id (abort e.signal m)
  unfolding abort
  abort-ends =
      let listens : is_listening e.signal id m.listeners ≡ true = ground (arith, w.listens) in
      finalize_all-ends (listening e.signal m.listeners) id
        (record m { listeners = select (λ l. not (l.0 == e.signal)) m.listeners })
        (listening-mentions e.signal id m.listeners listens)
        (waits e (record {
          found = w.found;
          open_entry = w.open_entry;
          armed = w.armed;
          listens = ground (arith, listening-mentions e.signal id m.listeners listens);
          unsettled = w.unsettled;
        }))

  resolve-ends :
      (d : ConfirmationDecision)
      → let (t, answer) = resolve_pending e.pending.input.user_id id d m in
        IsOver id t
        × (answer ≡ resolved)
        × (t.settled ≡ (id, record { decision = d; reason = by_user }) ∷ m.settled)
  unfolding resolve_pending
  resolve-ends d =
      rw (w.found, resolve_pending, eq_refl e.pending.input.user_id)
        (
          finalize-IsOver id e (record { decision = d; reason = by_user }) m w.found w.open_entry
              w.unsettled,
          refl,
          finalize-settled id e (record { decision = d; reason = by_user }) m w.found w.open_entry,
        )

  resolve-forbidden :
      (user_id : String) (d : ConfirmationDecision)
      → str_eq e.pending.input.user_id user_id ≡ false
      → resolve_pending user_id id d m ≡ (m, forbidden)
  unfolding resolve_pending
  resolve-forbidden user_id d other = rw (w.found, resolve_pending, other) refl

  -- A gate that waits ends by its timeout, with a denial, by an abort of its run, or by its user's
  -- decision, with that decision; another user's decision is refused and changes nothing.
  pub waiting_ends :
      (d : ConfirmationDecision) (user_id : String)
      → str_eq e.pending.input.user_id user_id ≡ false
      → (IsOver id (expire id m) × ((expire id m).settled ≡ (id, denied_for timeout) ∷ m.settled))
        × IsOver id (abort e.signal m)
        × (let (t, answer) = resolve_pending e.pending.input.user_id id d m in
            IsOver id t
            × (answer ≡ resolved)
            × (t.settled ≡ (id, record { decision = d; reason = by_user }) ∷ m.settled))
        × (resolve_pending user_id id d m ≡ (m, forbidden))
  waiting_ends d user_id other =
      (expire-ends, abort-ends, resolve-ends d, resolve-forbidden user_id d other)
