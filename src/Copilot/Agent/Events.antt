-- ===== src/Copilot/Agent/Events.antt =====
-- The events of copilot/kernel/agent-events.ts, the shapes of llm/chat-model.port.ts, skill.ts and
-- audit-sink.ts. Structured payloads and blocks are opaque texts. Times, the previews of arguments
-- and results, and the texts of a skill's errors are left out.
use newbie_modules.Common.{ℕ, String, Bool, true, false, Option, List}
use newbie_modules.Copilot.Confirmations.Manager.{ConfirmationOutcome}

pub record AgentUsage : Type 0 where
  pub prompt_tokens : ℕ
  pub completion_tokens : ℕ
  pub total_tokens : ℕ

pub data AgentFailureCode : Type 0 where
  no_active_model step_limit aborted model_timeout model_auth model_rate_limited model_bad_request
        model_upstream internal :
      AgentFailureCode

pub data ModelErrorCategory : Type 0 where
  timeout aborted auth rate_limit bad_request payment upstream : ModelErrorCategory

pub data ModelFinishReason : Type 0 where
  stop tool_calls length_limit error other : ModelFinishReason

pub data ToolStatus : Type 0 where
  success failure denied : ToolStatus

pub record SkillAction : Type 0 where
  pub label : String
  pub href : String

pub data AgentEvent : Type 0 where
  run_started : (request_id conversation_id model_id : String) → List String → AgentEvent
  text_delta : String → AgentEvent
  tool_started : (tool_call_id name : String) → AgentEvent
  tool_finished : (tool_call_id name : String) → ToolStatus → (blocks : List String) → AgentEvent
  confirm_required :
      (confirmation_id request_id conversation_id tool_call_id name : String) → AgentEvent
  confirm_resolved : (confirmation_id tool_call_id name : String) → ConfirmationOutcome → AgentEvent
  action : (tool_call_id source : String) → SkillAction → AgentEvent
  run_finished :
      (request_id : String) (steps : ℕ) → ModelFinishReason → Option AgentUsage → AgentEvent
  failed :
      (request_id : String) → AgentFailureCode → (message : String) (is_aborted : Bool) → AgentEvent

pub record ModelToolCall : Type 0 where
  pub id : String
  pub name : String
  pub arguments : String

pub data ModelStreamChunk : Type 0 where
  text_chunk : String → ModelStreamChunk
  tool_call_chunk : ModelToolCall → ModelStreamChunk
  finish_chunk : ModelFinishReason → Option AgentUsage → ModelStreamChunk

pub data ErrorCode : Type 0 where
  unknown_skill invalid_arguments skill_failed skill_timeout skill_aborted : ErrorCode

pub record SkillResult : Type 0 where
  pub content : Option String
  pub structured : Option String
  pub actions : List SkillAction
  pub blocks : List String

pub data SkillEnvelope : Type 0 where
  succeeded : (content structured : Option String) → List SkillAction → SkillEnvelope
  failed_with : ErrorCode → SkillEnvelope

pub data SkillResultKind : Type 0 where
  list detail stats : SkillResultKind

pub record SkillExecution : Type 0 where
  pub envelope : SkillEnvelope
  pub actions : List SkillAction
  pub kind : Option SkillResultKind
  pub blocks : List String

-- An assistant turn with an empty text has no content, and one with no calls has no `toolCalls`.
pub data ChatMessage : Type 0 where
  system_message : String → ChatMessage
  user_message assistant_message : String → ChatMessage
  assistant_turn : (text : String) → List ModelToolCall → ChatMessage
  tool_message : (tool_call_id tool_name : String) → SkillEnvelope → (is_error : Bool) → ChatMessage

pub data AuditEntry : Type 0 where
  model_call : (step : ℕ) → Option AgentUsage → (is_success : Bool) → AuditEntry
  skill_call : (skill_name : String) → SkillEnvelope → AuditEntry
  gate_required : (skill_name tool_call_id confirmation_id : String) → AuditEntry
  gate_resolved :
      (skill_name tool_call_id confirmation_id : String) → ConfirmationOutcome → AuditEntry

-- What a run does, in order: the events that it yields, the entries of the audit, the calls of the
-- model and of the skills' handlers.
pub data Output : Type 0 where
  emitted : AgentEvent → Output
  audited : AuditEntry → Output
  called_model : Output
  called_handler : (name : String) → Output

abbrev pub is_ok : SkillEnvelope → Bool
is_ok (succeeded content structured actions) = true
is_ok (failed_with code) = false
