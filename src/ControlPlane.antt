-- ===== src/ControlPlane.antt =====
-- services/control-plane-api/src: the handlers of the HTTP routes, from the request's fields to the
-- response, in the tenant's transaction (withRequestTenant of db.ts). Express, the parsing of the
-- request and the camel-casing of the row in the response are not modelled.
pub mod Errors
pub mod Middleware
pub mod Workflows
pub mod Idempotency
pub mod Body
pub mod Agents
pub mod Tasks
pub mod Secrets
pub mod Models
pub mod Deployments
pub mod Approvals
mod Tests
