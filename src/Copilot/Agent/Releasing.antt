-- ===== src/Copilot/Agent/Releasing.antt =====
-- The handle after its run was consumed (copilot/kernel/consume-agent-run.ts).
use newbie_modules.Common.{
  ℕ, String, Bool, true, false, ◌≡◌, refl, ◌∙◌, List, [], ◌∷◌, Bool-cases, inl, inr, arith, ==_refl,
}
use newbie_modules.Copilot.ConversationStore.State.{RunHandle, Store, holds_lock}
use newbie_modules.Copilot.ConversationStore.Operations.{
  note_event, succeed, fail, finish, push_answer,
}
use newbie_modules.Copilot.Agent.Events.{
  AgentEvent, text_delta, run_started, tool_started, tool_finished, confirm_required,
  confirm_resolved, action, run_finished, failed,
}
use newbie_modules.Copilot.Agent.Consume.{
  Frame, read_text, is_terminal, settle_by, released, drain, consume_agent_run,
}

-- The handle's run still holds the lock of its conversation.
abbrev pub holds : RunHandle → Store AgentEvent → Bool
holds h s = holds_lock h (s.heap h.owner).running

fail_releases : (t : ℕ) (h : RunHandle) (s : Store AgentEvent) → holds h (fail t h s) ≡ false
unfolding fail finish
fail_releases t h s = elim (Bool-cases (holds h s)) [
  | inl on ↦ rw (on, fail, ==_refl h.owner) refl
  | inr off ↦ rw (off, fail) off
]

succeed_releases :
    (at t : ℕ) (h : RunHandle) (text : String) (s : Store AgentEvent)
    → holds h (succeed at t h text s) ≡ false
unfolding succeed finish push_answer
succeed_releases at t h text s = elim (Bool-cases (holds h s)) [
  | inl on ↦ rw (on, succeed, ==_refl h.owner) refl
  | inr off ↦ rw (off, succeed) off
]

-- What a frame does to the handle: it settles it, or leaves it.
pub data Settles (f : Frame) (h : RunHandle) (text : String) (s : Store AgentEvent) : Type 0 where
  ended : is_terminal f.event ≡ true → holds h (settle_by f h text s) ≡ false → Settles f h text s
  open_still : is_terminal f.event ≡ false → settle_by f h text s ≡ s → Settles f h text s

event-Settles :
    (e : AgentEvent) (throws : Bool) (at t : ℕ) (h : RunHandle) (text : String)
    (s : Store AgentEvent)
    → Settles (record { event = e; observer_throws = throws; at = at; finished_at = t }) h text s
event-Settles (run_started r c m skills) throws at t h text s = open_still refl refl
event-Settles (text_delta d) throws at t h text s = open_still refl refl
event-Settles (tool_started id name) throws at t h text s = open_still refl refl
event-Settles (tool_finished id name status blocks) throws at t h text s = open_still refl refl
event-Settles (confirm_required g r c id name) throws at t h text s = open_still refl refl
event-Settles (confirm_resolved g id name outcome) throws at t h text s = open_still refl refl
event-Settles (action id name a) throws at t h text s = open_still refl refl
event-Settles (run_finished r steps reason usage) throws at t h text s =
    ended refl (succeed_releases at t h text s)
event-Settles (failed r code message is_aborted) throws at t h text s =
    ended refl (fail_releases t h s)

pub settles :
    (f : Frame) (h : RunHandle) (text : String) (s : Store AgentEvent) → Settles f h text s
settles f h text s = event-Settles f.event f.observer_throws f.at f.finished_at h text s

noted_holds :
    (h : RunHandle) (e : AgentEvent) (s : Store AgentEvent) → holds h (note_event h e s) ≡ holds h s
unfolding note_event
noted_holds h e s = refl

released_lem :
    (now : ℕ) (h : RunHandle) (seen : Bool) (s : Store AgentEvent)
    → (seen ≡ true → holds h s ≡ false)
    → holds h (released now h seen s) ≡ false
released_lem now h true s given = given refl
released_lem now h false s given = fail_releases now h s

drain_releases :
    (fs : List Frame) (stream_throws : Bool) (now : ℕ) (h : RunHandle) (text : String) (seen : Bool)
    (s : Store AgentEvent)
    → (seen ≡ true → holds h s ≡ false)
    → holds h (drain fs stream_throws now h text seen s).store ≡ false
unfolding drain
drain_releases [] stream_throws now h text seen s given = released_lem now h seen s given
drain_releases (f ∷ fs) stream_throws now h text seen s given =
    let text' = read_text f.event text in
    let noted = note_event h f.event s in
    let given' : (seen ≡ true → holds h noted ≡ false) =
      (λ on. noted_holds h f.event s ∙ given on) in
    elim (Bool-cases f.observer_throws) [
      | inl throws ↦ rw (drain, throws) (released_lem now h seen noted given')
      | inr quiet ↦ elim (settles f h text' noted) [
        | ended is off ↦
            rw (drain, quiet, is)
              (drain_releases fs stream_throws now h text' true (settle_by f h text' noted)
                (λ on. off))
        | open_still is same ↦
            rw (drain, quiet, is)
              (drain_releases fs stream_throws now h text' seen (settle_by f h text' noted)
                (λ on. rw same (given' on)))
      ]
    ]

-- However the stream ends and whatever the observer throws, the run's lock on its conversation is
-- released when the consumption of the run is over.
pub consume_agent_run_releases :
    (fs : List Frame) (stream_throws : Bool) (now : ℕ) (h : RunHandle) (s : Store AgentEvent)
    → holds h (consume_agent_run fs stream_throws now h s).store ≡ false
unfolding consume_agent_run
consume_agent_run_releases fs stream_throws now h s =
    drain_releases fs stream_throws now h "" false s (λ on. absurd (ground (arith, on)))
