-- ===== src/Lib.antt =====
-- The integration requests of bcgov/sso-requests: who may do what to an integration, and the
-- workflow engine that applies a change to Keycloak.
--
-- An integration (a row of `requests`) is changed by a submission. The request's controllers ask
-- whether the actor may do it: the status transitions (app/helpers/transitions.ts) against the
-- permissions that the access resolver finds (app/queries/integrationAccess.ts), in the vocabulary
-- of packages/authz. What is allowed is stored as a workflow with a plan of steps
-- (app/workflow/request-workflow.ts, app/workflow/store.ts), which a worker claims and drives
-- (app/workflow/orchestrator.ts), step by step (app/workflow/steps/integration.ts), recording the
-- outcome of each operation in the audit record (app/workflow/audit.ts). What a payload may change is
-- decided field by field (app/utils/requestPolicy.ts). Changes outside the engine, such as roles, are
-- audited operations and batches (packages/audit). Beside these stand the log queries
-- (packages/logs-query) and the chat with the assistant (app/utils/chat, chat-proxy.ts, rag-token.ts).
--
-- Files, and the code that they model:
--   Base: the shared lists, tests, maps and sorting.
--   Authz: packages/authz/src. Permissions (permissions.ts), Sets (sets.ts), Presets (presets.ts),
--     Organization (organization.ts). A permission is a constructor.
--   Audit: packages/audit/src. Actor (actor.ts, context.ts), Event (event.ts, describeError of
--     details.ts), Writer (writer.ts up to runAuditedOperation), Batch (runAuditedBatch).
--   Policy: app/utils/requestPolicy.ts. Values (normalize), Fields, Authority, Changes.
--   Logs: packages/logs-query/src/index.ts.
--   Chat: Sse (app/utils/chat/sse.ts), Stream (the read loop of app/components/ChatWidget/useChat.ts),
--     Session (app/utils/chat-proxy.ts), Token (app/utils/rag-token.ts).
--   Transitions: app/helpers/transitions.ts.
--   Access: AppRoles (app/utils/authorize.ts, the application roles), Integration
--     (app/queries/integrationAccess.ts, and getAllowedIdpsForApprover of app/utils/helpers.ts),
--     Scope (app/queries/accessScope.ts).
--   Requests: app/controllers/requests.ts, what hands a row to the engine, with authorizeIntegration of
--     app/queries/integrationAccess.ts; Delete (deleteRequest), Resubmit (resubmitRequest), Restore
--     (restoreRequest and setIntegrationOwner).
--   Workflow: Types (app/workflow/types.ts), Backoff (backoff.ts), Audit (audit.ts), Store
--     (store.ts, with Tables, Create, Lease and Promote below it), Steps (steps/integration.ts),
--     Orchestrator (orchestrator.ts, with its alerts), Enqueue (request-workflow.ts), Recovery (the promotion of
--     orphans), Lifecycle (the operations as steps of a relation on the tables, whose
--     rows and events its files follow).
--   Examples: concrete inputs.
--
-- The stored state is a record `Db` of tables, each the list of its rows, with the clock and the
-- supply of unused ids; an operation of the store takes it and returns it. What leaves the database
-- is recorded there too: the background runs that were started and the alerts to the operators.
-- The in-memory workflow of the orchestrator is passed on beside the tables. Ids and times are
-- numbers, times in milliseconds. An error is a value: `Stored` of a transaction, `Thrown` of a
-- step, `none` of an insert.
--
-- The surroundings of the engine are arguments. `Effects` holds Keycloak, the role and mail effects
-- of app/workflow/effects.ts, the expiry of a step's timer, `randomInt`, whether the insert of an
-- event fails, and what happens to the tables while a step runs: the heartbeat, other workers, time.
-- A transaction of the store reads `seen`, the table or an older state of it, so that a submission
-- that races another one is a run on an old view.
--
-- What the connection does with nulls is a field of `Db`: under `omitNull`, which production sets, an update
-- drops the nulls among its values, so that a release keeps the lease. An alert to the operators goes out where
-- the webhook is configured and answers (`alert_sent`).
--
-- An audited operation runs against a log of what happened: rows that were committed, alerts for those
-- that were not, calls, mirror writes. Which inserts and commits fail is an argument, and so is the
-- interleaving of a batch's children, as a list of indices per slice. The token cache is a relation on
-- histories of calls, responses and invalidations. lodash, the hash of a user's tag, JSON.parse and the
-- directory's answer for an address are arguments.
--
-- Loops. `run_slices` runs on the number of the children, since each slice takes one at least.
-- `iterate` runs on the budget of `execute`, the number of steps and one more. `drain` and
-- `run_to_completion` run on the code's own limits.
--
-- Not modelled: row locks and `SKIP LOCKED` (a statement is one step), database failures other than
-- a violated unique index and an event that cannot be written, logs and metrics, the texts of the
-- time-out and of an unconfirmed client, the events that the restore of roles writes of its own,
-- the membership queries (the scope is an argument), the other controllers (of the request's own also
-- mail, the requester and the times of a row), the Keycloak client, the api
-- service, the user interface but for the chat's read loop, the rest of the audit vocabulary, the text
-- of a log query, the parsing of upstream cookies and the stored chat history, the
-- keys that the tables of fields inherit from JavaScript's Object.prototype (a field named `toString`).
pub mod Base
pub mod Authz
pub mod Audit
pub mod Policy
pub mod Logs
pub mod Chat
pub mod Transitions
pub mod Access
pub mod Workflow
pub mod Requests
pub mod Examples
