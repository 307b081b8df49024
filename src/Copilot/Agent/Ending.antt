-- ===== src/Copilot/Agent/Ending.antt =====
-- Every run ends, and what it does is a word of the protocol (copilot/kernel/agent-runner.ts).
use newbie_modules.Common.{
  ℕ, zero, suc, ◌+◌, ◌≤◌, ◌<◌, ◌≡◌, inl, inr, refl, ◌∙◌, String, Bool, true, false, Option, none,
  List, [], ◌∷◌, ◌++◌, Dict, Bool-cases, Option-cases, leb, arith,
}
use newbie_modules.Copilot.ConversationStore.State.{HistoryMessage}
use newbie_modules.Copilot.Agent.Events.{
  ModelToolCall, ModelStreamChunk, text_chunk, tool_call_chunk, finish_chunk, Output, emitted,
  audited, called_model, model_call, run_finished, failed, AgentFailureCode, AgentUsage, AuditEntry,
  ModelFinishReason,
}
use newbie_modules.Copilot.Agent.Registry.{
  SkillDefinition, AgentExecutionContext, requires_confirmation,
}
use newbie_modules.Copilot.Agent.State.{
  Services, Turn, Loop, Ran, Failure, before, ends, deltas, new_turn, read_chunks, max_agent_steps,
  model_error, other_error,
}
use newbie_modules.Copilot.Agent.Runner.{
  call_tools, after_turn, counted, round, run_loop, run_agent, initial, caught,
}
use newbie_modules.Copilot.Agent.Protocol.{
  Phase, before_start, between_calls, over, through, through-append, model_calls,
  model_calls-append,
}
use newbie_modules.Copilot.Agent.Following.{Rests, call_tools-Rests}
use newbie_modules.Copilot.Agent.Calling.{call_tools_silent}

module _ {W Data : Type 0} (skills : Dict SkillDefinition) (env : Services W Data)
    (context : AgentExecutionContext) where
  open env use {registry, stream}
  open registry use {is_aborted}

  abbrev needs : String → Bool
  needs = requires_confirmation skills

  -- From where it rests a run goes on to its end, with at most `n` calls of the model.
  pub record Ends (n : ℕ) (r : Ran W) : Type 0 where
    pub has_ended : r.has_ended ≡ true
    pub protocol : (p : Phase) → Rests skills env context p → through needs p r.outputs ≡ over
    pub bound : model_calls r.outputs ≤ n

  deltas-through :
      (cs : List ModelStreamChunk) → through needs between_calls (deltas cs) ≡ between_calls
  unfolding through deltas
  deltas-through [] = refl
  deltas-through (text_chunk text ∷ cs) = deltas-through cs
  deltas-through (tool_call_chunk call ∷ cs) = deltas-through cs
  deltas-through (finish_chunk reason usage ∷ cs) = deltas-through cs

  deltas-model_calls : (cs : List ModelStreamChunk) → model_calls (deltas cs) ≡ 0
  unfolding deltas
  deltas-model_calls [] = refl
  deltas-model_calls (text_chunk text ∷ cs) = deltas-model_calls cs
  deltas-model_calls (tool_call_chunk call ∷ cs) = deltas-model_calls cs
  deltas-model_calls (finish_chunk reason usage ∷ cs) = deltas-model_calls cs

  before-Ends :
      (n m : ℕ) (outputs : List Output) (r : Ran W)
      → ((p : Phase)
          → Rests skills env context p
          → Rests skills env context (through needs p outputs))
      → model_calls outputs + n ≤ m
      → Ends n r
      → Ends m (before outputs r)
  before-Ends n m outputs r rests few e = record {
    has_ended = e.has_ended;
    protocol = λ p h.
        through-append needs p outputs r.outputs ∙ e.protocol (through needs p outputs) (rests p h);
    bound = rw (model_calls-append outputs r.outputs) (omega (arith, few, e.bound));
  }

  -- A terminal event by itself.
  abbrev IsLast : Output → Type 0
  IsLast o =
      (p : Phase)
      → Rests skills env context p
      → (through needs p (o ∷ []) ≡ over) × (model_calls (o ∷ []) ≡ 0)

  failed-IsLast :
      (id : String) (code : AgentFailureCode) (message : String) (is_aborted : Bool)
      → IsLast (emitted (failed id code message is_aborted))
  unfolding through
  failed-IsLast id code message is_aborted p h = elim h [
    | inl e ↦ rw e (refl, refl)
    | inr (i, name, e) ↦ rw e (refl, refl)
  ]

  finished-IsLast :
      (id : String) (steps : ℕ) (reason : ModelFinishReason) (usage : Option AgentUsage)
      → IsLast (emitted (run_finished id steps reason usage))
  unfolding through
  finished-IsLast id steps reason usage p h = elim h [
    | inl e ↦ rw e (refl, refl)
    | inr (i, name, e) ↦ rw e (refl, refl)
  ]

  caught-IsLast :
      (failure : Failure) (is_aborted : Bool)
      → IsLast (caught skills env context failure is_aborted)
  caught-IsLast failure true = failed-IsLast _ _ _ _
  caught-IsLast (model_error category) false = failed-IsLast _ _ _ _
  caught-IsLast other_error false = failed-IsLast _ _ _ _

  last-Ends : (n : ℕ) (o : Output) (w : W) → IsLast o → Ends n (ends (o ∷ []) w)
  last-Ends n o w last = record {
    has_ended = refl;
    protocol = λ p h. (last p h).0;
    bound = omega (arith, (last between_calls (inl refl)).1);
  }

  after_turn-Ends :
      (n : ℕ) (again : Loop → W → Ran W) (s : Loop) (turn : Turn) (w : W)
      (calls : List ModelToolCall)
      → turn.tool_calls ≡ calls
      → ((t : Loop) (v : W) → t.steps ≡ s.steps → s.steps < max_agent_steps → Ends n (again t v))
      → Ends n (after_turn skills env context again s turn w)
  unfolding after_turn
  after_turn-Ends n again s turn w [] is rest =
      rw (after_turn, is) (last-Ends n _ w (finished-IsLast _ _ _ _))
  after_turn-Ends n again s turn w (call ∷ calls) is rest =
      elim (Bool-cases (leb max_agent_steps s.steps)) [
        | inl full ↦ rw (after_turn, is, full) (last-Ends n _ w (failed-IsLast _ _ _ _))
        | inr more ↦
            let tools = call_tools skills env context (call ∷ calls) w in
            let silent = call_tools_silent skills env context (call ∷ calls) w in
            rw (after_turn, is, more)
              (before-Ends n n tools.outputs _
                (λ p h. call_tools-Rests skills env context p (call ∷ calls) w h)
                (omega (arith, silent))
                (rest (record s { messages = s.messages ++ tools.messages }) tools.world refl
                  (ground (arith, more))))
      ]

  read_through :
      (cs : List ModelStreamChunk) (entry : AuditEntry) (p : Phase)
      → Rests skills env context p
      → through needs p (called_model ∷ deltas cs ++ audited entry ∷ []) ≡ between_calls
  unfolding through
  read_through cs entry p h =
      let reads : through needs between_calls (deltas cs ++ audited entry ∷ []) ≡ between_calls =
        through-append needs between_calls (deltas cs) (audited entry ∷ []) ∙ deltas-through cs in
      elim h [ inl e ↦ rw e reads | inr (i, name, e) ↦ rw e reads ]

  read_calls :
      (cs : List ModelStreamChunk) (entry : AuditEntry)
      → model_calls (called_model ∷ deltas cs ++ audited entry ∷ []) ≡ 1
  read_calls cs entry =
      omega (arith, model_calls-append (deltas cs) (audited entry ∷ []), deltas-model_calls cs)

  read-Ends :
      (n : ℕ) (cs : List ModelStreamChunk) (entry : AuditEntry) (r : Ran W)
      → Ends n r
      → Ends (suc n) (before (called_model ∷ deltas cs ++ audited entry ∷ []) r)
  read-Ends n cs entry r e =
      before-Ends n (suc n) (called_model ∷ deltas cs ++ audited entry ∷ []) r
        (λ p h. inl (read_through cs entry p h)) (omega (arith, read_calls cs entry)) e

  round-Ends :
      (n : ℕ) (again : Loop → W → Ran W) (s : Loop) (w : W)
      → ((t : Loop) (v : W)
          → t.steps ≡ suc s.steps
          → suc s.steps < max_agent_steps
          → Ends n (again t v))
      → Ends (suc n) (round skills env context again s w)
  unfolding round
  round-Ends n again s w rest = elim (Bool-cases (is_aborted w)) [
    | inl ab ↦ rw (round, ab) (last-Ends (suc n) _ w (failed-IsLast _ _ _ _))
    | inr go ↦
        let (streamed, w') = stream s.messages w in
        elim (Option-cases streamed.thrown) [
          | inl whole ↦
              let turn = read_chunks new_turn streamed.chunks in
              rw (round, go, whole)
                (read-Ends n streamed.chunks (model_call (suc s.steps) turn.usage true) _ (
                  after_turn-Ends n again (counted skills env context s turn) turn w'
                    turn.tool_calls refl rest))
          | inr (failure, is) ↦
              rw (round, go, is)
                (read-Ends n streamed.chunks (model_call (suc s.steps) none false)
                  (ends (caught skills env context failure (is_aborted w') ∷ []) w')
                  (last-Ends n _ w' (caught-IsLast failure (is_aborted w'))))
        ]
  ]

  run_loop-Ends :
      (n : ℕ) (s : Loop) (w : W)
      → s.steps + suc n ≡ max_agent_steps
      → Ends (suc n) (run_loop skills env context (suc n) s w)
  unfolding run_loop
  run_loop-Ends zero s w h =
      round-Ends 0 (run_loop skills env context 0) s w
        (λ t v e more. absurd (omega (arith, h, more)))
  run_loop-Ends (suc n) s w h =
      round-Ends (suc n) (run_loop skills env context (suc n)) s w
        (λ t v e more. run_loop-Ends n t v (omega (arith, h, e)))

  -- Whatever the model streams or throws, the user decides and the handlers do, a run ends within
  -- ten calls of the model, and what it does is a word of the protocol: it starts with run-started,
  -- each call of a tool is closed, a skill that needs a confirmation runs its handler only behind
  -- its own confirmed gate, a denied call runs none, actions follow their call's success, and a
  -- run-finished or failed event is the last and the only one.
  pub run_agent-FollowsProtocol :
      (model_id : String) (history : List HistoryMessage) (message : String) (w : W)
      → let r = run_agent skills env context model_id history message w in
        (r.has_ended ≡ true)
        × (through needs before_start r.outputs ≡ over)
        × (model_calls r.outputs ≤ max_agent_steps)
  unfolding run_agent through
  run_agent-FollowsProtocol model_id history message w =
      let e = run_loop-Ends 9 (initial skills env context history message) w refl in
      (e.has_ended, e.protocol between_calls (inl refl), e.bound)
