-- ===== src/Lib.antt =====
-- NexaFlow, the server of a low-code business platform (backend). Tenants define entities, keep records
-- of them, and run approval workflows on the records; a Redis queue runs background jobs, limiters guard
-- the HTTP routes, and billing meters what a tenant uses. The services of backend/internal/service hold
-- the logic, over repositories (backend/internal/repository) that are SQL through gorm.
--
-- How the parts interact: a request carries a tenant scope (Tenancy); a limiter (RateLimit) lets it in;
-- the middleware finds the scope from the access token of a session (Accounts); the record service
-- validates values against the entity's schema and takes a unit of the tenant's quota from billing
-- before it writes (Entities, Billing); the workflow service starts and advances instances
-- over those records (Workflow); background work goes through the queue (Jobs), among it the delivery of
-- the notifications that a workflow writes. The schema is brought up to date before all that
-- (Migrations).
--
-- The files and the code:
-- - Workflow: backend/internal/service/workflow_service.go and backend/internal/model/workflow.go.
--   Workflow.Validation is validateWorkflowGraph, one function per loop; `walk` is its inner function,
--   whose two maps are `visiting` and `visited`, on fuel of one call more than there are nodes: a
--   call that goes deeper enters a node that is not on the way yet. Workflow.Traversal is
--   traverse, whose loop has its own bound in the code, and
--   chooseEdge, compare, findNode, hasRole, buildNotification. Workflow.Service is Define, Archive, Start
--   and Act over a record of the repository's and the other services' methods. Scans, EdgeScans, Links,
--   Walk, Acyclic, Choice, Progress, Totality, Fuel and Guards are proofs. Workflow.Repository is
--   backend/internal/repository/workflow_repository.go over lists of rows, an implementation of that
--   record; Versions, History and Once are proofs about the service over it.
-- - RateLimit: backend/internal/middleware/rate_limit.go. RateLimit keeps its buckets in an association
--   list; the order of eviction does not matter.
-- - Jobs: backend/internal/jobs/queue.go. Jobs.Redis is the interface of the Redis commands that the
--   scripts call, with their documented behaviour as laws; Jobs.Scripts are the Lua scripts, Jobs.Queue
--   the methods of Queue. An idempotency key expires by the clock that the queue reads too.
--   Jobs.Examples has a store in memory for which the laws hold.
-- - Entities: backend/internal/service/dynamic_model_service.go (Entities.Schema) and
--   dynamic_record_service.go (Entities.Records). Parsers of dates, addresses and URLs and the printing
--   of floating-point numbers are a record of functions. Accepted, Fits, Names and Metering are proofs.
-- - Forms: backend/internal/service/form_service.go. Forms.Schema has Define, Archive and
--   validateAndGenerateForm, whose loop answers the components, the properties and the required names;
--   Generated is a proof. Forms.Submission has Submit of form_submission_service.go over the operations
--   of Entities.Records.
-- - Tenancy: backend/internal/tenantcontext/context.go, and billingTenant.
-- - Billing: backend/internal/repository/billing_repository.go (Billing.Store) and
--   backend/internal/service/billing_service.go (Billing.Service). A transaction is a function on the
--   tables; one that fails leaves them. Quota, Units and Events are proofs; Billing.Meter is the
--   interface by which Entities.Metering and Knowledge.Metering take Consume as the UsageMeter of their
--   services, and Billing.Samples an implementation of it for tests.
-- - Notifications: backend/internal/service/notification_worker.go and the outbox of
--   backend/internal/repository/notification_repository.go.
-- - Accounts: backend/internal/repository/auth_repository.go (Accounts.Store for users, tenants and
--   sessions, Accounts.Roles for SetRolePermissions, SetUserRoles and SetUserStatus),
--   backend/internal/service/auth_service.go (Accounts.Service) and backend/internal/middleware/auth.go
--   (Accounts.Gate, the three handlers composed). Accounts.Model has the tables. bcrypt, SHA-256,
--   strings.ToLower and the signing of tokens are the fields of a record; fresh tokens, ids and times are
--   arguments. Accounts.Registration is Register and CreateTenant. Bearer, Grants, Sessions,
--   Admins, SignIn and Newcomer are proofs.
-- - Migrations: backend/internal/migration/runner.go. Migrations.Runner has Run, runLocked and
--   validateRegistry over a database whose content is any type; a migration is a function on it that can
--   fail. Registry, History, Pending and Refinement are proofs.
-- - Knowledge: backend/internal/service/knowledge_service.go. Knowledge.Splitting has normalizeText and
--   splitKnowledge on lists of code points, with fuel of one more than the text is long, since the position
--   grows with each chunk where chunks overlap by less than their size; Knowledge.Service has
--   Ingest and Delete over a record of the repository, the provider of embeddings and the
--   meter. Windows and Metering are proofs.
-- - Patterns, Strings and Values: the regular expressions, the part of Go's strings and the decoded
--   values that these services share. Prelude holds what all modules share.
--
-- Numbers: Go's int is an unbounded integer where no sum can reach its bounds; the delays of the queue
-- and the counters of billing are int64 with their wrap-around. A float64 is its bit pattern.
--
-- Not modelled: handlers and routing, SQL and gorm, the migrations' own SQL, the settings of
-- tenants, the ingestion jobs, AI services, files, the payment provider, configuration, telemetry
-- and logging; failures and timeouts of Redis and of the database; the goroutines
-- of the queue.
pub mod Prelude
pub mod Strings
pub mod Patterns
pub mod Values
pub mod Workflow
pub mod RateLimit
pub mod Jobs
pub mod Knowledge
pub mod Tenancy
pub mod Billing
pub mod Accounts
pub mod Migrations
pub mod Notifications
pub mod Entities
pub mod Forms
