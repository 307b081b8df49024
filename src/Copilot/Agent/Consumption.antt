-- ===== src/Copilot/Agent/Consumption.antt =====
-- The consumption of a run of the agent (copilot/kernel/consume-agent-run.ts, agent-runner.ts).
use newbie_modules.Common.{
  Dict, ℕ, String, Bool, true, false, not, ◌≡◌, refl, sym, ap, ◌∙◌, some, List, [], ◌∷◌, map, all,
  Bool-cases, inl, inr, arith,
}
use Prim.Native.String.append
use Prim.Native.String.{◌++◌ as str_append}
use text.Mathlib.TextLemmas.{append-nil, append_assoc}
use newbie_modules.Copilot.ConversationStore.State.{RunHandle, Store}
use newbie_modules.Copilot.ConversationStore.Operations.{note_event}
use newbie_modules.Copilot.Agent.Events.{
  AgentEvent, text_delta, run_started, tool_started, tool_finished, confirm_required,
  confirm_resolved, action, run_finished, failed,
}
use newbie_modules.Copilot.Agent.Protocol.{before_start}
use newbie_modules.Copilot.Agent.Consume.{
  Frame, Consumed, read_text, is_terminal, settle_by, drain, consume_agent_run,
}
use newbie_modules.Copilot.ConversationStore.State.{HistoryMessage}
use newbie_modules.Copilot.Agent.Registry.{
  SkillDefinition, AgentExecutionContext, requires_confirmation,
}
use newbie_modules.Copilot.Agent.State.{Services}
use newbie_modules.Copilot.Agent.Runner.{run_agent}
use newbie_modules.Copilot.Agent.Ending.{run_agent-FollowsProtocol}
use newbie_modules.Copilot.Agent.Word.{events_of, ends_once, word-ends_once}
use newbie_modules.Copilot.Agent.Releasing.{settles, ended, open_still}

-- The text that the events stream, and the events noted one after the other.
abbrev pub answer : List AgentEvent → String
answer [] = ""
answer (e ∷ es) =
    let rest = answer es in elim e [ text_delta text ↦ str_append text rest | _ ↦ rest ]

abbrev pub note_all : RunHandle → List AgentEvent → Store AgentEvent → Store AgentEvent
note_all h [] s = s
note_all h (e ∷ es) s = note_all h es (note_event h e s)

abbrev pub last_of : Frame → List Frame → Frame
last_of f [] = f
last_of f (g ∷ gs) = last_of g gs

abbrev pub frame_events : List Frame → List AgentEvent
frame_events = map (λ f. f.event)

abbrev pub is_quiet : Frame → Bool
is_quiet f = not f.observer_throws

terminal_text :
    (e : AgentEvent) (text : String)
    → is_terminal e ≡ true
    → (read_text e text ≡ text) × (answer (e ∷ []) ≡ "")
terminal_text (run_started r c m skills) text h = (refl, refl)
terminal_text (text_delta d) text h = absurd (cc h)
terminal_text (tool_started id name) text h = (refl, refl)
terminal_text (tool_finished id name status blocks) text h = (refl, refl)
terminal_text (confirm_required g r c id name) text h = (refl, refl)
terminal_text (confirm_resolved g id name outcome) text h = (refl, refl)
terminal_text (action id name a) text h = (refl, refl)
terminal_text (run_finished r steps reason usage) text h = (refl, refl)
terminal_text (failed r code message is_aborted) text h = (refl, refl)

text_step :
    (e : AgentEvent) (text : String) (es : List AgentEvent)
    → str_append (read_text e text) (answer es) ≡ str_append text (answer (e ∷ es))
text_step (run_started r c m skills) text es = refl
text_step (text_delta d) text es = append_assoc text d (answer es)
text_step (tool_started id name) text es = refl
text_step (tool_finished id name status blocks) text es = refl
text_step (confirm_required g r c id name) text es = refl
text_step (confirm_resolved g id name outcome) text es = refl
text_step (action id name a) text es = refl
text_step (run_finished r steps reason usage) text es = refl
text_step (failed r code message is_aborted) text es = refl

-- Every event noted, and then one settlement with the whole text.
abbrev pub settled_at_end : Frame → List Frame → RunHandle → String → Store AgentEvent → Consumed
settled_at_end f fs h text s = record {
  store = settle_by (last_of f fs) h text (note_all h (frame_events (f ∷ fs)) s);
  result = some text;
}

drain_last :
    (f : Frame) (now : ℕ) (h : RunHandle) (text : String) (s : Store AgentEvent)
    → f.observer_throws ≡ false
    → is_terminal f.event ≡ true
    → drain (f ∷ []) false now h text false s ≡ settled_at_end f [] h text s
unfolding drain
drain_last f now h text s quiet last =
    rw (drain, quiet, last, (terminal_text f.event text last).0) refl

drain_step :
    (f : Frame) (fs : List Frame) (now : ℕ) (h : RunHandle) (text : String) (s : Store AgentEvent)
    → f.observer_throws ≡ false
    → is_terminal f.event ≡ false
    → drain (f ∷ fs) false now h text false s
      ≡ drain fs false now h (read_text f.event text) false (note_event h f.event s)
unfolding drain
drain_step f fs now h text s quiet more =
    elim (settles f h (read_text f.event text) (note_event h f.event s)) [
      | ended is off ↦ absurd (cc (sym more ∙ is))
      | open_still is same ↦ rw (drain, quiet, more, same) refl
    ]

drain_whole :
    (f : Frame) (fs : List Frame) (now : ℕ) (h : RunHandle) (text : String) (s : Store AgentEvent)
    → all is_quiet (f ∷ fs) ≡ true
    → ends_once (frame_events (f ∷ fs)) ≡ true
    → drain (f ∷ fs) false now h text false s
      ≡ settled_at_end f fs h (str_append text (answer (frame_events (f ∷ fs)))) s
drain_whole f [] now h text s quiet once = elim (Bool-cases (is_terminal f.event)) [
  | inr more ↦ absurd (cc (rw more at once))
  | inl last ↦
      rw ((terminal_text f.event text last).1, append-nil text)
        (drain_last f now h text s (ground (arith, quiet)) last)
]
drain_whole f (g ∷ gs) now h text s quiet once = elim (Bool-cases (is_terminal f.event)) [
  | inl last ↦ absurd (cc (rw last at once))
  | inr more ↦
      let noted = note_event h f.event s in
      drain_step f (g ∷ gs) now h text s (ground (arith, quiet)) more
      ∙ drain_whole g gs now h (read_text f.event text) noted (ground (arith, quiet))
          (rw more at once)
      ∙ ap (λ t. settled_at_end g gs h t noted) (text_step f.event text (frame_events (g ∷ gs)))
]

module _ {W Data : Type 0} (skills : Dict SkillDefinition) (env : Services W Data)
    (context : AgentExecutionContext) where
  -- A run of the agent whose events are all observed without an exception is consumed as if its
  -- events were noted one after the other, and the handle then settled once, on the last of them,
  -- with the text that they stream; that text is the result.
  pub consume_agent_run-settled_at_end :
      (model_id : String) (history : List HistoryMessage) (message : String) (w : W) (f : Frame)
      (fs : List Frame) (now : ℕ) (h : RunHandle) (s : Store AgentEvent)
      → frame_events (f ∷ fs)
        ≡ events_of (run_agent skills env context model_id history message w).outputs
      → all is_quiet (f ∷ fs) ≡ true
      → consume_agent_run (f ∷ fs) false now h s
        ≡ settled_at_end f fs h (answer (frame_events (f ∷ fs))) s
  unfolding consume_agent_run
  consume_agent_run-settled_at_end model_id history message w f fs now h s yields quiet =
      let r = run_agent skills env context model_id history message w in
      let word = (run_agent-FollowsProtocol skills env context model_id history message w).1 in
      let once : ends_once (frame_events (f ∷ fs)) ≡ true =
        ap ends_once yields
        ∙ word-ends_once (requires_confirmation skills) before_start r.outputs refl word in
      drain_whole f fs now h "" s quiet once
      ∙ ap (λ t. settled_at_end f fs h t s) (append.nil (answer (frame_events (f ∷ fs))))
