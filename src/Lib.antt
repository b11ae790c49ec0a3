-- ===== src/Lib.antt =====
-- NexClaw (package scope @nexclaw) is an assistant that answers messages of chat channels with
-- language models, through tools and uploaded skills, under an administrator's control. This library
-- models the decisions that its API server (apps/api) makes on its own, without the services that it
-- calls, and proves what they guarantee.
--
-- The parts, and the code they model:
--
-- Routing: which model answers, and at what cost (apps/api/src/services/routing).
--   Routing/Signals.antt is analyzeSignals and its helpers of model-router.ts, Routing/Router.antt
--   is routeModel, escalateModel, selectModel, resolveTierModel and classifyTier,
--   Routing/Pricing.antt is model-pricing.ts, and Routing/Spend.antt is enforceSpendControls of
--   spend-controls.ts with the candidates it tries. The orchestrator routes an event, passes the
--   decision through the spend controls before each call for a reply, and escalates once when a call
--   fails; its request for a title does not pass them.
-- Security: the vetting of skill sources (apps/api/src/security). Security/Scanner.antt is
--   scanSource with the rules of Security/Rules.antt, and Security/Policy.antt is policy-engine.ts.
--   Security/Scanner/Lines.antt says where in a source a position is.
-- Skills: the life of a skill. Skills/Ingestion.antt is ingestSkill (apps/api/src/services/skills/
--   ingestion.service.ts), which scans, judges and stores a version. Skills/Management.antt is
--   toggleSkill and manualOverride (skill.service.ts, override.service.ts). Skills/Guard.antt is
--   canExecute (apps/api/src/security/execution-guard.ts), which is asked before a skill runs.
--   Skills/Runs.antt puts them together as one state machine on the tables of Skills/Types.antt, and
--   Skills/Validity holds its invariant.
-- Auth: who may use the administration API. Auth/Sessions.antt is apps/api/src/services/
--   auth.service.ts on the tables of Auth/Types.antt, Auth/Access.antt the session, CSRF and role
--   checks of apps/api/src/middleware/auth in the order of apps/api/src/app.ts, and Auth/Runs.antt
--   the service as a state machine, with the logins that its sessions go back to in
--   Auth/Runs/Earned.antt.
-- Jobs: the persisted jobs of inbound emails. Jobs/Rows.antt is apps/api/src/repositories/
--   job.repository.ts on one table, Jobs/Emails.antt the job half of apps/api/src/workers/
--   email-processing.worker.ts, and Jobs/Runs.antt the life of one row: attempts that claim it,
--   settle it or crash, in any order.
-- Memory: what the assistant remembers. Memory/Facts.antt is dedupeFacts of apps/api/src/services/
--   memory/memory.service.ts, and Memory/Records.antt the upsert of apps/api/src/repositories/
--   memory.repository.ts with the loop of extractAndStoreMemories.
-- Orchestration: one event from its prompt to its reply (apps/api/src/orchestration).
--   Orchestration/Prompt.antt is prompt-composer.ts. Orchestration/Attempts.antt, Stages.antt and
--   Execution.antt beside it are executeEvent of orchestrator.ts: the look-ups, the calls of the
--   provider under the spend controls, the tools and the follow-up, and the whole.
--   Orchestration/Tools/Catalog.antt is tool-resolver.ts, with its tool definitions in
--   Tools/Definitions.antt, and Executor.antt there is external-tool-executor.ts; both ask the guard
--   of Skills on the same tables. Tools/SubAgents.antt is sub-agent-dispatcher.ts with the inputs
--   (Arguments.antt, Inputs.antt) and the task rows (Tasks.antt,
--   apps/api/src/repositories/sub-agent-task.repository.ts), and Tools/Settings.antt the switches of
--   apps/api/src/services/settings.service.ts. Tools/Calls.antt puts the catalog and the executor
--   together, and Execution/Tools.antt the executor and the orchestrator. PostProcessing.antt is
--   post-processing.ts, which follows a reply. Conversations.antt is conversation-manager.ts on the
--   tables of conversations, participants and messages, and Conversations/Mailbox.antt beside it the
--   mailbox that these tables stand for.
-- Errors.antt is AppError (apps/api/src/utils/app-error.ts), Json.antt the JSON values that tools
--   and prompts carry, with JSON.stringify. Prelude and its children hold shared types, lists and
--   texts.
--
-- How the code is read:
--
-- Strings that the code searches are lists of UTF-16 code units. toLowerCase folds the ASCII
--   letters. The patterns of the router are written out as word searches; those of the scanner are
--   data, and their matching is a parameter, the engine of the JavaScript runtime.
-- Money is a natural number of 1e-8 US dollars, so that the prices per million tokens and the
--   rounding to eight places are exact. The code computes with doubles: whether a quotient of theirs
--   falls short of a whole number of tokens is an argument of the spend controls, and a tie that
--   toFixed(4) rounds in a text may be rounded the other way; the importance of a fact is counted in
--   tenths. Division is written out where the code rounds.
-- SHA-256 is a parameter, and no theorem assumes that it has no collisions. Its hex digests are
--   compared as strings. What JSON.parse makes of a string, what a skill's script exports and what a
--   call of its functions returns are parameters, like the answers of the provider and the work of
--   the sub-agents' services; a provider may answer each request by all that came before it. argon2,
--   the random tokens and the bytes of a string are parameters too. That argon2 verifies the hash
--   that it made of a password is a hypothesis, where it is used. A session is read together with
--   its admin, who exists by the foreign key.
-- A table is a list of rows with the newest first, an id is a number, and a query for a unique key
--   finds the first row. A transaction that throws leaves the tables alone. Writing to the database
--   and to the audit log is taken to succeed, and log lines are left out.
-- An event is executed by one call of executeEvent from start to end; several at a time are not
--   interleaved. A failure of a collaborator is a value, and the orchestrator's model says what
--   follows. The title and the closing of a conversation, which the code starts without waiting for
--   them, follow the reply one after the other. The services of the sub-agents may ask a provider
--   too; their requests are theirs, and no statement about the requests or the tokens of an event
--   counts them.
-- Recursion is structural everywhere but in the printing of a number, which takes its number as
--   fuel; each round divides by ten, so that it is enough.
--
-- Not modelled: the calls of language models, chat services, mail servers and the database driver,
--   the web framework and its routes, the patterns that find facts in a message, the records of the
--   usage, the work of the three sub-agents behind their dispatch, the other workers, and the
--   administration pages.
pub mod Prelude
pub mod Json
pub mod Errors
pub mod Routing
pub mod Security
pub mod Skills
pub mod Auth
pub mod Jobs
pub mod Memory
pub mod Orchestration
