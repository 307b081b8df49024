-- ===== src/Copilot/Confirmations/Gate.antt =====
-- The life of one gate under every call of the manager (copilot/kernel/confirmation-manager.ts).
use newbie_modules.Common.{
  ℕ, ◌+◌, ◌≡◌, refl, sym, String, Bool, true, false, ◌&&◌, ◌||◌, none, some, List, [], ◌∷◌, any,
  ◌==◌, if◌then◌else◌, str_eq, get, get-delete, eq_iff, eq_refl, subst, Bool-cases, Option-cases,
  inl, inr, arith,
}
use newbie_modules.Copilot.Confirmations.Manager.{
  Manager, PendingEntry, ConfirmationOutcome, without, without_listener, finalize,
}

-- How often the promise of a gate was settled.
abbrev pub settlements : String → List (String × ConfirmationOutcome) → ℕ
settlements id [] = 0
settlements id ((j, outcome) ∷ rest) = (if str_eq j id then 1 else 0) + settlements id rest

abbrev pub mentions : String → List String → Bool
mentions id ts = any (λ j. str_eq j id) ts

abbrev pub is_listening : ℕ → String → List (ℕ × String) → Bool
is_listening signal id ls = any (λ l. l.0 == signal && str_eq l.1 id) ls

-- A gate that waits has an armed timer, and its promise is open; it has a listener on its run's
-- signal, or is among those that an abort has yet to deny.
pub record IsWaiting (todo : List String) (id : String) (e : PendingEntry) (m : Manager)
    : Type 0 where
  pub found : get id m.pending ≡ some e
  pub open_entry : e.settled ≡ false
  pub armed : mentions id m.timers ≡ true
  pub listens : (is_listening e.signal id m.listeners || mentions id todo) ≡ true
  pub unsettled : settlements id m.settled ≡ 0

-- A gate that is over was settled exactly once, and no timer is left.
pub record IsOver (id : String) (m : Manager) : Type 0 where
  pub gone : get id m.pending ≡ none
  pub disarmed : mentions id m.timers ≡ false
  pub once : settlements id m.settled ≡ 1

pub data HeldIn (todo : List String) (id : String) (m : Manager) : Type 0 where
  waits : (e : PendingEntry) → IsWaiting todo id e m → HeldIn todo id m
  over : IsOver id m → HeldIn todo id m

-- Between two calls of the manager.
abbrev pub Held : String → Manager → Type 0
Held = HeldIn []

pub armed-without_self : (id : String) (ts : List String) → mentions id (without id ts) ≡ false
armed-without_self id [] = refl
armed-without_self id (t ∷ ts) = ground (arith, armed-without_self id ts)

pub armed-without :
    (id j : String) (ts : List String)
    → str_eq j id ≡ false
    → mentions id (without j ts) ≡ mentions id ts
armed-without id j [] h = refl
armed-without id j (t ∷ ts) h =
    ground (arith, armed-without id j ts h, eq_iff t j, eq_iff t id, eq_iff j id)

listens-without :
    (signal other : ℕ) (id j : String) (ls : List (ℕ × String))
    → str_eq j id ≡ false
    → is_listening signal id (without_listener other j ls) ≡ is_listening signal id ls
listens-without signal other id j [] h = refl
listens-without signal other id j ((s, t) ∷ ls) h =
    ground (arith, listens-without signal other id j ls h, eq_iff t j, eq_iff t id, eq_iff j id)

-- Another gate's end leaves this one as it is.
finalize-other :
    (todo : List String) (id j : String) (outcome : ConfirmationOutcome) (m : Manager)
    → str_eq j id ≡ false
    → HeldIn (j ∷ todo) id m
    → HeldIn todo id (finalize j outcome m)
unfolding finalize
finalize-other todo id j outcome m other h =
    let rest : HeldIn todo id m = elim h [
      | waits own w ↦ waits own (record {
        found = w.found;
        open_entry = w.open_entry;
        armed = w.armed;
        listens = rw other at w.listens;
        unsettled = w.unsettled;
      })
      | over o ↦ over o
    ] in
    elim (Option-cases (get j m.pending)) [
      | inl absent ↦ rw (absent, finalize) rest
      | inr (e, found) ↦ elim (Bool-cases e.settled) [
        | inl done ↦ rw (found, finalize, done) rest
        | inr fresh ↦
            rw (found, finalize, fresh)
              (elim rest [
                | waits own w ↦ waits own (record {
                  found = rw (get-delete j id m.pending, other) w.found;
                  open_entry = w.open_entry;
                  armed = rw (armed-without id j m.timers other) w.armed;
                  listens =
                      rw (listens-without own.signal e.signal id j m.listeners other) w.listens;
                  unsettled = rw other (omega (arith, w.unsettled));
                })
                | over o ↦ over (record {
                  gone = rw (get-delete j id m.pending, other) o.gone;
                  disarmed = rw (armed-without id j m.timers other) o.disarmed;
                  once = rw other (omega (arith, o.once));
                })
              ])
      ]
    ]

-- The end of a gate that waits.
pub finalize-IsOver :
    (id : String) (e : PendingEntry) (outcome : ConfirmationOutcome) (m : Manager)
    → get id m.pending ≡ some e
    → e.settled ≡ false
    → settlements id m.settled ≡ 0
    → IsOver id (finalize id outcome m)
unfolding finalize
finalize-IsOver id e outcome m found fresh none_yet =
    rw (found, finalize, fresh)
      (record {
        gone = rw (get-delete id id m.pending, eq_refl id);
        disarmed = armed-without_self id m.timers;
        once = rw (eq_refl id) (omega (arith, none_yet));
      })

finalize-gone :
    (id : String) (outcome : ConfirmationOutcome) (m : Manager)
    → IsOver id m
    → IsOver id (finalize id outcome m)
unfolding finalize
finalize-gone id outcome m o = rw (o.gone, finalize) o

pub finalize_self :
    (todo : List String) (id : String) (outcome : ConfirmationOutcome) (m : Manager)
    → HeldIn todo id m
    → IsOver id (finalize id outcome m)
finalize_self todo id outcome m (waits e w) =
    finalize-IsOver id e outcome m w.found w.open_entry w.unsettled
finalize_self todo id outcome m (over o) = finalize-gone id outcome m o

pub finalize-Held :
    (todo : List String) (id j : String) (outcome : ConfirmationOutcome) (m : Manager)
    → HeldIn (j ∷ todo) id m
    → HeldIn todo id (finalize j outcome m)
finalize-Held todo id j outcome m h = elim (Bool-cases (str_eq j id)) [
  | inr other ↦ finalize-other todo id j outcome m other h
  | inl same ↦
      let e : j ≡ id = (eq_iff j id).0 same in
      over (
        subst (λ k. IsOver id (finalize k outcome m)) (sym e)
          (finalize_self (j ∷ todo) id outcome m h))
]

pub weaken : (j id : String) (m : Manager) → Held id m → HeldIn (j ∷ []) id m
weaken j id m (waits e w) = waits e (record {
  found = w.found;
  open_entry = w.open_entry;
  armed = w.armed;
  listens = ground (arith, w.listens);
  unsettled = w.unsettled;
})
weaken j id m (over o) = over o
