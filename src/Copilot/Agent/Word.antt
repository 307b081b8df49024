-- ===== src/Copilot/Agent/Word.antt =====
-- The events of a word of the protocol (copilot/kernel/agent-events.ts).
use newbie_modules.Common.{
  String, Bool, true, false, ◌≡◌, ◌⊎◌, refl, sym, ◌∙◌, List, [], ◌∷◌, if◌then◌else◌, Bool-cases,
  inl, inr, arith,
}
use newbie_modules.Copilot.Agent.Events.{
  AgentEvent, Output, emitted, audited, called_model, called_handler,
}
use newbie_modules.Copilot.Agent.Protocol.{
  Phase, before_start, between_calls, over, broken, acting, opened, waiting, cleared, blocked, ran,
  advance, on_event, on_handler, through,
}
use newbie_modules.Copilot.Agent.Consume.{is_terminal}

-- The events that a run yields.
abbrev pub events_of : List Output → List AgentEvent
events_of [] = []
events_of (emitted e ∷ os) = e ∷ events_of os
events_of (audited entry ∷ os) = events_of os
events_of (called_model ∷ os) = events_of os
events_of (called_handler n ∷ os) = events_of os

-- One terminal event, and nothing after it.
abbrev pub ends_once : List AgentEvent → Bool
ends_once [] = false
ends_once (e ∷ es) =
    let rest = ends_once es in if is_terminal e then elim es [ [] ↦ true | _ ↦ false ] else rest

abbrev pub is_over : Phase → Bool
is_over p = elim p [ over ↦ true | _ ↦ false ]

module _ (needs : String → Bool) where
  broken_through : (os : List Output) → through needs broken os ≡ broken
  unfolding through
  broken_through [] = refl
  broken_through (emitted e ∷ os) = broken_through os
  broken_through (audited entry ∷ os) = broken_through os
  broken_through (called_model ∷ os) = broken_through os
  broken_through (called_handler n ∷ os) = broken_through os

  over_through : (os : List Output) → through needs over os ≡ over → events_of os ≡ []
  unfolding through
  over_through [] h = refl
  over_through (emitted e ∷ os) h = absurd (cc (sym (broken_through os) ∙ h))
  over_through (audited entry ∷ os) h = over_through os h
  over_through (called_model ∷ os) h = absurd (cc (sym (broken_through os) ∙ h))
  over_through (called_handler n ∷ os) h = absurd (cc (sym (broken_through os) ∙ h))

  goes_on :
      (p : Phase) (e : AgentEvent) → is_terminal e ≡ false → is_over (on_event needs p e) ≡ false
  goes_on before_start e h = ground (arith, h)
  goes_on between_calls e h = ground (arith, h)
  goes_on over e h = refl
  goes_on broken e h = refl
  goes_on (acting id name) e h = ground (arith, h)
  goes_on (opened id name) e h = ground (arith, h)
  goes_on (waiting id name) e h = ground (arith, h)
  goes_on (cleared id name) e h = ground (arith, h)
  goes_on (blocked id name) e h = ground (arith, h)
  goes_on (ran id name) e h = ground (arith, h)

  -- A terminal event ends the run, or breaks the protocol.
  ends_by :
      (p : Phase) (e : AgentEvent)
      → is_terminal e ≡ true
      → (on_event needs p e ≡ over) ⊎ (on_event needs p e ≡ broken)
  ends_by before_start e h = ground (arith, h)
  ends_by between_calls e h = ground (arith, h)
  ends_by over e h = inr refl
  ends_by broken e h = inr refl
  ends_by (acting id name) e h = ground (arith, h)
  ends_by (opened id name) e h = ground (arith, h)
  ends_by (waiting id name) e h = ground (arith, h)
  ends_by (cleared id name) e h = ground (arith, h)
  ends_by (blocked id name) e h = ground (arith, h)
  ends_by (ran id name) e h = ground (arith, h)

  called_goes_on : (p : Phase) → is_over p ≡ false → is_over (advance needs p called_model) ≡ false
  called_goes_on p h = ground (arith, h)

  handler_goes_on : (p : Phase) (n : String) → is_over (on_handler needs p n) ≡ false
  handler_goes_on p n = ground arith

  pub word-ends_once :
      (p : Phase) (os : List Output)
      → is_over p ≡ false
      → through needs p os ≡ over
      → ends_once (events_of os) ≡ true
  unfolding through
  word-ends_once p [] not_over h = absurd (cc (rw h at not_over))
  word-ends_once p (audited entry ∷ os) not_over h = word-ends_once p os not_over h
  word-ends_once p (called_model ∷ os) not_over h =
      word-ends_once (advance needs p called_model) os (called_goes_on p not_over) h
  word-ends_once p (called_handler n ∷ os) not_over h =
      word-ends_once (on_handler needs p n) os (handler_goes_on p n) h
  word-ends_once p (emitted e ∷ os) not_over h = elim (Bool-cases (is_terminal e)) [
    | inr more ↦ rw more (word-ends_once (on_event needs p e) os (goes_on p e more) h)
    | inl last ↦ elim (ends_by p e last) [
      | inl done ↦ rw (last, over_through os (rw done at h)) refl
      | inr bad ↦ absurd (cc (sym (broken_through os) ∙ rw bad at h))
    ]
  ]
