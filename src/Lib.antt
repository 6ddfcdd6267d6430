-- ===== src/Lib.antt =====
-- Verification of the commons and the authorization of stigmer-apps.
--
-- The program is a set of TypeScript packages and an application for law firms. A resource (a case, a
-- document, a ledger entry) is served by pipelines of steps that packages/resource-api/src builds for
-- its kind: validate, load, authorize, check the natural key, build the state, persist, publish. The
-- pipelines call a store (packages/resource-api/src/store) and a policy. The firm's policy
-- (apps/law/backend/src/domain/authz/policy.ts) answers from the rows of the store and from an
-- authorization engine, whose tuples packages/authorization/src keeps equal to a projection of the rows. Who calls is made out by
-- packages/identity/src: sign-in with a password, refresh tokens that work once, access tokens, the
-- operator's key, and the identities that the agent platform asserts.
--
-- Parts and files:
--   Common: lists, strings as lists of UTF-16 code units, insertion-ordered maps, tests.
--   ResourceApi.Errors, .Effects: errors.ts, and the computations: a state transformer with
--   exceptions, in which what was written before a throw stays written.
--   ResourceApi.Pipeline: pipeline.ts; Pipeline.Order and Pipeline.Run are about it.
--   ResourceApi.Envelope: audit.ts, id.ts, principal.ts.
--   ResourceApi.Store.Filter, ResourceApi.Store.Memory: store/store.ts and store/memory-store.ts;
--   Memory.Unique, Memory.Writes and Memory.Pages are about the in-memory store.
--   ResourceApi.Port: the store port, policy.ts, publisher.ts and what a resource definition holds.
--   ResourceApi.Resource: resource.ts, with one child for each flavour of operation: Create
--   (buildCreateExecutor, insertNew), Update (buildUpdateExecutor), Read (getOperation, listOperation)
--   and Custom (customOperation), and validate.ts.
--   Authz.Vocabulary, Authz.Policy: policy.ts of the law application; Policy.Cells holds authorizeUser,
--   one function for each kind of resource, Policy.Decide the branches of the principals and the guards.
--   Authz.Reconcile: packages/authorization/src/reconcile.ts and tuples.ts.
--   Authz.Projection: apps/law/backend/src/domain/authz/tuples.ts; Projection.Sound and
--   Projection.Deltas are about it.
--   ResourceApi.Publisher, ResourceApi.References: publisher.ts and references.ts.
--   Identity.RateLimit: packages/identity/src/rate-limit.ts; RateLimit.Laws is about runs of calls.
--   Identity.Sessions: the refresh tokens of postgres/stores.ts; Sessions.Spec is the contract of
--   refresh-token.ts, Sessions.Laws and Sessions.OneTime are about both.
--   Identity.Stores, Identity.Cookies, Identity.AuthService: the other stores, the refresh cookie and
--   the handlers of auth-service.ts; AuthService.Login, .Sessions and .Passwords are about them.
--   Identity.Callers, Identity.CallerIdentity: authenticator.ts, operator-key.ts, token.ts,
--   transport.ts, and caller-identity.ts.
--   Authz.Paging: listAll of apps/law/backend/src/domain/authz/tuples.ts; Paging.Complete is about it,
--   and Paging.Engine is packages/authorization/src/engine.ts.
--   Law.Tasks: apps/law/backend/src/domain/task; Tasks.Listing is the list handler and what it lets a
--   caller see, Tasks.Overdue is about overdue.ts. Law.Reminders: domain/reminders/sweep.ts;
--   Reminders.Settled and Reminders.Windows are about it. Law.CaseMembers: domain/casemember, with
--   applyTupleDeltaSafely of domain/authz/tuples.ts; CaseMembers.Removal is about the removal.
--
-- A pipeline's mutable context is a record that each step returns anew. Times are milliseconds. The
-- clock, the random part of an id, protovalidate, the equality of protobuf messages, their rendering
-- as JSON, bcrypt, SHA-256, the signing of tokens, random bytes, lower-casing, the publisher, the authorization engine and the rows that the policy reads are parameters.
-- A custom handler is any tree of uses of its context. The two loops over pages run on fuel, and theorems
-- say how many rounds are enough; all other recursion is structural.
-- A state that the source changes in place, as save does with the metadata, is the state that the call
-- answers, and a handler goes on with that one; the rows that Array.sort sorts are sorted by insertion,
-- which makes no difference to a comparator that leaves no tie between two ids. The texts of errors that only reach a log are shortened.
--
-- Not modelled: defineResource's binding to service descriptors, sumBy and searchText of the stores,
-- the OpenFGA client, the user resource and the keys of the identity package, the other domain resources, timers, the servers, the web
-- applications and generated code.
pub mod Common
pub mod ResourceApi
pub mod Authz
pub mod Identity
pub mod Law
