-- ===== src/Lib.antt =====
-- A verification library for the server modules under packages/modules.
--
-- The repository is a collection of NestJS modules. Two of them carry most logic of their own:
-- the evaluation skeleton (packages/modules/evaluation), which judges a subject against a
-- published set of criteria, and the copilot kernel (packages/modules/copilot/kernel), which runs
-- an agent with skills and approval gates and holds its conversations with a user. The periods of
-- work-evaluation and the judgments of security-evaluation are clients of the skeleton; url-check
-- and order stand by themselves.
--
-- An evaluation run goes through startRun, markRunning, the collection of evidence, a judgment,
-- the checks of evaluation-invariants.ts and markSucceeded or markFailed. While it runs, touch is
-- its heartbeat and assertActive its fence, and any process may close it by reapStaleRuns. A
-- conversation is entered by beginRun, whose handle buffers events and settles the run;
-- consumeAgentRun drains AgentRunner.run into that handle.
--
-- Common: native numbers and integers, dictionaries, counts, the table interface of a database
--   (Table) and a list-backed instance of it (Rows).
-- Copilot.ConversationStore: copilot/kernel/conversation-store.ts with the limits of
--   agent-config.ts. State has the records; Map values are references, so conversation records
--   and event buffers stand on a heap. Operations has prune, beginRun in its stages, noteEvent,
--   succeed, fail and finish; Eviction has evictConversations.
-- Copilot.Confirmations: copilot/kernel/confirmation-manager.ts. Manager has the calls and the two
--   events that end a gate, Gate what a gate is while it waits and when it is over, Calls that each
--   call keeps it.
-- Copilot.Agent: the agent's run. Events has the events and messages, Registry is
--   skill-registry.ts with Admission for register and Schema for its search for identity fields;
--   State and Runner are agent-runner.ts, Protocol the automaton that a run's events obey;
--   Following has the calls of tools and Ending the loop. The loop is on the fuel of
--   MAX_AGENT_STEPS rounds. Consume is consume-agent-run.ts over the handle of the store,
--   Releasing and Consumption what it does to the handle.
-- Evaluation.Contracts, Errors: the value shapes of evaluation/ports and the exceptions.
-- Evaluation.Coverage: composeCoverageStats with mergeBuckets (Compose), validateCoverageStats
--   (Validate). Evaluation.Judgment: validateJudgment.
-- Evaluation.Run: evaluation-run.service.ts. State has the rows and the interface RunDb, Service
--   the methods; a method takes the time and the database's state and returns an outcome and the
--   new state. Step is one call by any process, so a sequence of steps is an interleaving of
--   processes at the grain of the database's statements.
-- Evaluation.Finding: evaluation-finding.service.ts over the interface FindingDb. Data has the data
--   and the conditions of its queries, Service the methods; the parameter `others` is what other
--   processes write between a read and a write. RunStep is one write of a run, Step also a human's
--   decision. recordFindings calls validateJudgment of Evaluation.Judgment.
--
-- Evaluation.Criteria: evaluation-criteria.service.ts over the interface CriteriaDb of two tables; a
--   transaction that holds the row lock is one step.
-- Evaluation.Result: evaluation-result.service.ts over the interface ResultDb; createResult and
--   reviewResult are one step each, Reads has the reads, and hashManifest (canonical JSON under
--   SHA-256) is a parameter.
-- Evaluation.Remediation: evaluation-remediation.service.ts; Creation has createPlan over the
--   interface PlanDb, Checkpoints and Anchoring what it makes, Service has decidePlan and
--   updateCheckpoint over its table of plans.
-- Evaluation.Subject: evaluation-subject.service.ts over the interface SubjectDb and a provider.
-- Evaluation.Runner: evaluation-runner.service.ts over the run service and an interface Work for the
--   ports and the other services. execute is cut at its writes: prepare, settle, record_all,
--   resolve, close; conclude and fail_run are what follows the try block.
--
-- UrlCheck: packages/modules/url-check. Address and Guard are public-url.ts, Probe is the redirect
--   loop of url-check-probe.service.ts, Alert its state machine with the update of
--   url-check.service.ts, Cycle the batches of a cycle. The network is the parameter Network.
--
-- WorkEvaluation: packages/modules/work-evaluation. Period is work-evaluation-period.service.ts over
--   Evaluation.Criteria and an interface PeriodDb, Changes what each write does to a row.
--
-- SecurityEvaluation: packages/modules/security-evaluation. Merge is
--   judgment/security-evaluation-judgment-merge.ts, Owners, Verdicts, Findings and
--   Coverage what a merge has.
--
-- Order: packages/modules/order/order-pricing.ts; Pricing has the code, Totals its description.
--
-- Ids are UUIDs and are compared only, so an id is a number; a time is a number of milliseconds.
-- Only the agent's loop runs on fuel: every other loop is over a list. The database is a
-- parameter with the laws that its client documents: rows are found by id, a conditional update
-- changes the row of its id exactly if the condition holds and counts it, an insert fails
-- exactly on a taken id or on the partial unique index over active runs. A failure of the
-- connection is not modelled. The provider's choice of a version is a function of the subject;
-- the opaque run config is left out. The agent's model, its skills' handlers, the gates'
-- outcomes and the reads of the abort signal are parameters over a state of the outside world.
-- Objects with texts as keys are plain dictionaries: keys spelled like inherited members of objects
-- are left out. The bounding of a skill's blocks does not throw.
-- Numbers of a judgment are integers, or not finite for a score; a fraction is not modelled.
-- Hashing, JSON, paging queries, HTTP controllers and the other modules are not modelled.
pub mod Common
pub mod Copilot
pub mod Evaluation
pub mod UrlCheck
pub mod WorkEvaluation
pub mod SecurityEvaluation
pub mod Order
