-- ===== src/Copilot/Agent/State.antt =====
-- What the loop of copilot/kernel/agent-runner.ts works on, and its pure functions.
use newbie_modules.Common.{
  ℕ, ◌+◌, String, Bool, true, false, not, ◌&&◌, Option, none, some, List, [], ◌∷◌, ◌++◌, map,
  if◌then◌else◌, ltb,
}
use Prim.Native.String.{◌++◌ as str_append}
use newbie_modules.Copilot.Confirmations.Manager.{
  ConfirmationOutcome, ConfirmationReason, ConfirmationDecision,
}
use newbie_modules.Copilot.ConversationStore.State.{HistoryMessage, Role}
use newbie_modules.Copilot.Agent.Events.{
  AgentUsage, AgentFailureCode, ModelErrorCategory, ModelFinishReason, stop, ToolStatus, text_delta,
  action, failed, ModelToolCall, ModelStreamChunk, text_chunk, tool_call_chunk, finish_chunk,
  SkillEnvelope, SkillExecution, ChatMessage, user_message, assistant_message, Output, emitted,
  is_ok,
}
use newbie_modules.Copilot.Agent.Registry.{Skills}

abbrev pub max_agent_steps : ℕ
max_agent_steps = 10

-- What a call of the model may throw.
pub data Failure : Type 0 where
  model_error : ModelErrorCategory → Failure
  other_error : Failure

-- The chunks of a stream, and what it throws after them.
pub record Streamed : Type 0 where
  pub chunks : List ModelStreamChunk
  pub thrown : Option Failure

pub record Services (W Data : Type 0) : Type 0 where
  pub registry : Skills W Data
  pub stream : List ChatMessage → W → Streamed × W
  -- The new gate's id, for a call's id and name.
  pub request : String → String → Data → W → String × W
  pub settled : String → W → ConfirmationOutcome × W
  pub bound_blocks : List String → List String
  pub system_prompt : List String → String

-- What the chunks of one call of the model have given so far.
pub record Turn : Type 0 where
  pub text : String
  pub tool_calls : List ModelToolCall
  pub finish_reason : ModelFinishReason
  pub usage : Option AgentUsage

abbrev pub new_turn : Turn
new_turn = record { text = ""; tool_calls = []; finish_reason = stop; usage = none }

abbrev pub read_chunk : Turn → ModelStreamChunk → Turn
read_chunk t (text_chunk text) = record t { text = str_append t.text text }
read_chunk t (tool_call_chunk call) = record t { tool_calls = t.tool_calls ++ call ∷ [] }
read_chunk t (finish_chunk reason usage) = record t { finish_reason = reason; usage = usage }

unfoldable pub read_chunks : Turn → List ModelStreamChunk → Turn
read_chunks t [] = t
read_chunks t (c ∷ cs) = read_chunks (read_chunk t c) cs

unfoldable pub deltas : List ModelStreamChunk → List Output
deltas [] = []
deltas (text_chunk text ∷ cs) = emitted (text_delta text) ∷ deltas cs
deltas (tool_call_chunk call ∷ cs) = deltas cs
deltas (finish_chunk reason usage ∷ cs) = deltas cs

abbrev pub add_usage : AgentUsage → Option AgentUsage → AgentUsage
add_usage total none = total
add_usage total (some u) = record {
  prompt_tokens = total.prompt_tokens + u.prompt_tokens;
  completion_tokens = total.completion_tokens + u.completion_tokens;
  total_tokens = total.total_tokens + u.total_tokens;
}

abbrev pub model_error_to_code : ModelErrorCategory → AgentFailureCode
model_error_to_code ModelErrorCategory.timeout = AgentFailureCode.model_timeout
model_error_to_code ModelErrorCategory.aborted = AgentFailureCode.aborted
model_error_to_code ModelErrorCategory.auth = AgentFailureCode.model_auth
model_error_to_code ModelErrorCategory.rate_limit = AgentFailureCode.model_rate_limited
model_error_to_code ModelErrorCategory.bad_request = AgentFailureCode.model_bad_request
model_error_to_code ModelErrorCategory.payment = AgentFailureCode.model_upstream
model_error_to_code ModelErrorCategory.upstream = AgentFailureCode.model_upstream

abbrev pub model_error_message : ModelErrorCategory → String
model_error_message ModelErrorCategory.timeout = "The model request timed out. Please try again."
model_error_message ModelErrorCategory.aborted = "The run was cancelled."
model_error_message ModelErrorCategory.auth =
    "The model provider rejected the configured credentials. Ask an administrator to check the model connection."
model_error_message ModelErrorCategory.rate_limit =
    "The model provider is rate limiting requests. Please retry shortly."
model_error_message ModelErrorCategory.bad_request =
    "The model provider rejected this request. Please adjust the prompt and retry."
model_error_message ModelErrorCategory.payment =
    "The model provider reports a billing or quota problem. Ask an administrator to check the model account."
model_error_message ModelErrorCategory.upstream =
    "The model provider failed to complete the request. Please try again."

abbrev pub denied_model_message : ConfirmationReason → String
denied_model_message ConfirmationReason.by_user =
    "The user declined to confirm this action. Do not retry it; acknowledge that it was cancelled."
denied_model_message ConfirmationReason.timeout =
    "No confirmation was received within the time limit, so the action was not executed. Tell the user they can ask again and confirm promptly."
denied_model_message ConfirmationReason.aborted =
    "The run was cancelled while waiting for confirmation, so the action was not executed."

-- The structured payload names the reason.
abbrev pub denied_structured : ConfirmationReason → String
denied_structured ConfirmationReason.by_user = "{confirmation: denied, reason: user}"
denied_structured ConfirmationReason.timeout = "{confirmation: denied, reason: timeout}"
denied_structured ConfirmationReason.aborted = "{confirmation: denied, reason: aborted}"

abbrev pub failed_event : String → AgentFailureCode → String → Bool → Output
failed_event id code message is_aborted = emitted (failed id code message is_aborted)

abbrev pub cancelled_event : String → Output
cancelled_event id = failed_event id AgentFailureCode.aborted "The run was cancelled." true

-- `totalUsage.totalTokens > 0 ? totalUsage : undefined`
abbrev pub reported_usage : AgentUsage → Option AgentUsage
reported_usage u = if ltb 0 u.total_tokens then some u else none

-- The working state of the loop.
pub record Loop : Type 0 where
  pub messages : List ChatMessage
  pub usage : AgentUsage
  pub steps : ℕ

pub record Ran (W : Type 0) : Type 0 where
  pub outputs : List Output
  pub has_ended : Bool
  pub world : W

-- One tool call up to its execution: `denied` holds the outcome that blocked the handler.
pub record ToolRun (W : Type 0) : Type 0 where
  pub outputs : List Output
  pub execution : SkillExecution
  pub is_denied : Bool
  pub world : W

pub record Called (W : Type 0) : Type 0 where
  pub outputs : List Output
  pub messages : List ChatMessage
  pub world : W

abbrev pub before : {W : Type 0} → List Output → Ran W → Ran W
before outputs r = record r { outputs = outputs ++ r.outputs }

abbrev pub ends : {W : Type 0} → List Output → W → Ran W
ends outputs w = record { outputs = outputs; has_ended = true; world = w }

abbrev pub is_confirmed : ConfirmationOutcome → Bool
is_confirmed o = elim o.decision [
  | ConfirmationDecision.confirmed ↦ true
  | ConfirmationDecision.denied ↦ false
]

abbrev pub to_working_message : HistoryMessage → ChatMessage
to_working_message m = elim m.role [
  | Role.user ↦ user_message m.content
  | Role.assistant ↦ assistant_message m.content
]

abbrev pub tool_status : Bool → SkillEnvelope → ToolStatus
tool_status true envelope = ToolStatus.denied
tool_status false envelope = if is_ok envelope then ToolStatus.success else ToolStatus.failure

abbrev pub action_events : ModelToolCall → Bool → SkillExecution → List Output
action_events call is_denied x =
    if is_ok x.envelope && not is_denied
    then map (λ a. emitted (action call.id call.name a)) x.actions
    else []
