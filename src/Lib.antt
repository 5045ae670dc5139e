-- ===== src/Lib.antt =====
-- The AI Digital Office OS: a multi-tenant office of agents, whose services share one Postgres
-- database and are driven through the control plane's HTTP routes.
--
-- The parts and their files. A service's function keeps its name in snake case; a call that reads or
-- writes the database is an Action, a function of the database that gives a result or an error and
-- the database left.
--   * Prelude, Json, Failure: shared names and lemmas, the JSON values of the TypeScript code, the
--     errors that the services throw.
--   * PolicyEngine: packages/policy-engine/src/evaluator.ts and rules.ts. Governance: record.ts and
--     the query for a tenant's rules, which the agent factory and the tool gateway make.
--   * Schema, Db: the tables of packages/db/migrations, withTenantTransaction of
--     packages/db/src/client.ts and the row-level security of migration 0021. Db/Tables has one
--     statement for each table that a service writes, Db/Rows what a statement does to one row,
--     Db/Keeps and Db/Isolation what an action leaves alone, Db/References the foreign keys that a
--     request for a task, a deployment or a model may violate.
--   * AgentFactory: services/agent-factory/src, the score, the schema checks, the transitions of an
--     agent's lifecycle and the full pipeline. It asks the policy engine before the sandbox.
--   * ToolGateway: services/tool-gateway-mcp/src, authorisation, policy check, proxying to an MCP
--     server and the audit trail.
--   * ModelRouter: services/model-router-gateway/src, a model run with its retries, its record and
--     its charge in the usage ledger, and Benchmark, the suite of evaluate.ts over such runs.
--   * WorkflowEngine: services/workflow-engine/src, the event history, its replay, the steps, which
--     call the model router and the tool gateway, and the loop that runs a workflow.
--   * Budget: services/cost-usage-service/src/budget.ts, over the ledger that the router writes.
--   * Deployment: services/deployment-orchestrator/src.
--   * WorkingMemory: services/memory-service/src/working-memory.ts.
--   * PolicyService: services/policy-engine-service/src/policies.ts, the versions of a tenant's policies.
--   * Auth: packages/auth/src, the claims of an access token, its verification and the guards on
--     scopes.
--   * ControlPlane: services/control-plane-api/src. Middleware is the authentication and the tenant of
--     a request; Workflows the transitions of a workflow; Approvals the approvals, with the sweep of
--     services/policy-engine-service/src/approvals.ts; Idempotency the writes that are made once;
--     Agents, Deployments, Tasks, Models and Secrets the routes of those names, the first two on
--     top of Approvals and Deployment.
--   * Lifecycle: the abstract machine of a workflow's state, which WorkflowEngine and the workflow
--     routes refine.
--   * Scheduler: services/scheduler-worker/src, the sweeps over expired approvals and memory.
--
-- Outside the repository, and so parameters: the answers of model providers, MCP servers, the secret
-- store and health probes, the jwtVerify of jose, the driver's text of a query parameter, Ajv, SHA-256 and new identifiers. Deps of the
-- workflow engine lets the answers depend on the state, so that they may differ from call to call.
--
-- Bounds and fuel. The engine's `for (;;)` is recursion on fuel; one round more than there are steps
-- not yet completed is enough (WorkflowEngine.Termination). The retry loop recurses on the attempts
-- left. Numbers are natural numbers, as no counter of the source is bounded in practice. Money is
-- exact, in units of 0.00000001 (the scale of NUMERIC(18,8)), where the source rounds floating point.
--
-- Not modelled: interleaving inside one transaction, unique keys, the foreign keys that
-- Db/References does not have, the widths and formats of columns, the texts of error messages and
-- log lines, spans, HTTP and SQL text, embeddings, the generated domain model; and, of what could
-- be, facts, the settings that authentication reads from the environment, the evaluation and the
-- queries of models, the routes for projects, artifacts, feature flags and memory, and those that
-- only query: costs, decisions, mcp, providers, tenants, tools and usage.
pub mod Prelude
pub mod Json
pub mod Failure
pub mod PolicyEngine
pub mod Schema
pub mod Db
pub mod Governance
pub mod AgentFactory
pub mod ToolGateway
pub mod ModelRouter
pub mod WorkflowEngine
pub mod PolicyService
pub mod Auth
pub mod Budget
pub mod Deployment
pub mod WorkingMemory
pub mod ControlPlane
pub mod Lifecycle
pub mod Scheduler
