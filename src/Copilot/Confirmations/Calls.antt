-- ===== src/Copilot/Confirmations/Calls.antt =====
-- Each call of the manager keeps a gate that waits or is over (copilot/kernel/confirmation-manager.ts).
use newbie_modules.Common.{
  ℕ, ◌≡◌, sym, String, true, false, ◌||◌, not, List, [], ◌∷◌, select, any, ◌==◌, str_eq, get,
  eq_iff, subst, Bool-cases, Option-cases, inl, inr, arith,
}
use newbie_modules.Copilot.Confirmations.Manager.{
  Manager, ConfirmationDecision, aborted, timeout, denied_for, without, finalize, resolve_pending,
  expire, listening, finalize_all, abort,
}
use newbie_modules.Copilot.Confirmations.Gate.{
  mentions, is_listening, HeldIn, waits, over, Held, armed-without, finalize-IsOver, finalize-Held,
  weaken,
}

finalize_all-Held :
    (todo : List String) (id : String) (m : Manager)
    → HeldIn todo id m
    → Held id (finalize_all todo m)
unfolding finalize_all
finalize_all-Held [] id m h = h
finalize_all-Held (j ∷ js) id m h =
    finalize_all-Held js id (finalize j (denied_for aborted) m)
      (finalize-Held js id j (denied_for aborted) m h)

pub resolve_pending-Held :
    (id user_id j : String) (d : ConfirmationDecision) (m : Manager)
    → Held id m
    → Held id (resolve_pending user_id j d m).0
unfolding resolve_pending
resolve_pending-Held id user_id j d m h = elim (Option-cases (get j m.pending)) [
  | inl absent ↦ rw (absent, resolve_pending) h
  | inr (e, found) ↦ elim (Bool-cases (str_eq e.pending.input.user_id user_id)) [
    | inr other ↦ rw (found, resolve_pending, other) h
    | inl mine ↦ rw (found, resolve_pending, mine) (finalize-Held [] id j _ m (weaken j id m h))
  ]
]

expire_self : (id : String) (m : Manager) → Held id m → Held id (expire id m)
unfolding expire
expire_self id m (waits e w) = rw w.armed (
    over (
      finalize-IsOver id e (denied_for timeout) (record m { timers = without id m.timers }) w.found
        w.open_entry w.unsettled))
expire_self id m (over o) = rw o.disarmed (over o)

expire_other :
    (id j : String) (m : Manager) → str_eq j id ≡ false → Held id m → Held id (expire j m)
unfolding expire
expire_other id j m other h =
    let m' : Manager = record m { timers = without j m.timers } in
    let kept : HeldIn (j ∷ []) id m' = elim (weaken j id m h) [
      | waits e w ↦ waits e (record {
        found = w.found;
        open_entry = w.open_entry;
        armed = rw (armed-without id j m.timers other) w.armed;
        listens = w.listens;
        unsettled = w.unsettled;
      })
      | over o ↦ over (record {
        gone = o.gone;
        disarmed = rw (armed-without id j m.timers other) o.disarmed;
        once = o.once;
      })
    ] in
    elim (Bool-cases (any (λ k. str_eq k j) m.timers)) [
      | inr unarmed ↦ rw unarmed h
      | inl armed ↦ rw armed (finalize-Held [] id j (denied_for timeout) m' kept)
    ]

pub expire-Held : (id j : String) (m : Manager) → Held id m → Held id (expire j m)
expire-Held id j m h = elim (Bool-cases (str_eq j id)) [
  | inr other ↦ expire_other id j m other h
  | inl same ↦ subst (λ k. Held id (expire k m)) (sym ((eq_iff j id).0 same)) (expire_self id m h)
]

listens-listening :
    (s signal : ℕ) (id : String) (ls : List (ℕ × String))
    → is_listening s id ls ≡ true
    → (is_listening s id (select (λ l. not (l.0 == signal)) ls)
        || mentions id (listening signal ls))
      ≡ true
listens-listening s signal id [] h = cc
listens-listening s signal id ((other, j) ∷ ls) h = ground (arith, listens-listening s signal id ls)

pub abort-Held : (id : String) (signal : ℕ) (m : Manager) → Held id m → Held id (abort signal m)
unfolding abort
abort-Held id signal m h =
    finalize_all-Held (listening signal m.listeners) id
      (record m { listeners = select (λ l. not (l.0 == signal)) m.listeners })
      (elim h [
        | waits e w ↦ waits e (record {
          found = w.found;
          open_entry = w.open_entry;
          armed = w.armed;
          listens = listens-listening e.signal signal id m.listeners (ground (arith, w.listens));
          unsettled = w.unsettled;
        })
        | over o ↦ over (record { gone = o.gone; disarmed = o.disarmed; once = o.once })
      ])
