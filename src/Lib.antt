-- ===== src/Lib.antt =====
-- The Azure Red Hat OpenShift resource provider: a front end that answers the HTTP API, and a back
-- end whose workers bring the clusters to what the API asked for. The two, each in any number of
-- processes, meet only in the documents of a Cosmos DB: a cluster's document says what is to become
-- of the cluster, a lease on it says which worker is at it, and the document of an asynchronous
-- operation says how it went.
--
-- How the code is modelled. A function that calls a service is a function of a world and gives a
-- result, a value or an error, and a world (Action). The state of the services is of a type that
-- stays a parameter. What the other processes do between two requests of one process is a list of
-- functions on that state, so that a theorem about every world is one about every interleaving of
-- requests. What is documented of the database is a record of laws (Cosmos.Service.IsDocumented,
-- History); Cosmos.Memory is a service for which they hold, and the tests run on it. JSON, URLs,
-- random IDs, the parsers of networks, the parser of resource IDs of go-autorest, tokens and the
-- clients of Azure and of the cluster are parameters. Of mux and regexp, the documented matching of
-- routes and of the patterns in use is written out.
--
-- The files.
--   Base: tests on numbers, lists, and texts (Go's strings.ToLower and strings.Split, on ASCII).
--   Api: pkg/api, the types of the documents and the kinds of errors.
--   Cosmos: pkg/database/cosmosdb. Client has the request loop (databaseClient.do and _do), Create,
--     Get, Replace, Delete, Query and the iterators; Retry is RetryOnPreconditionFailed. Exchange,
--     Replace, Attempts, Unconditional and Pages are about them.
--   Database: pkg/database. Clusters is openshiftclusters.go, Subscriptions is subscriptions.go and
--     AsyncOperations is asyncoperations.go, a definition for each method under the method's name.
--     Clusters.Claim, Queue, Exclusive, Patch and Leased, and Subscriptions.Patch, are about the leases,
--     Clusters.Pages about the loop of Dequeue.
--   Backend: pkg/backend. Clusters is openshiftcluster.go, Subscriptions is subscriptions.go, `try`
--     with the goroutine that it starts run to its end; Scale is the part of
--     openshiftcluster/update.go that decides the number of replicas, Manager is
--     openshiftcluster/delete.go, Run is backend.go, the workers and the loop that starts them, as a
--     step relation. Settled and GivenUp are about `handle` and `try`, Going and Sweep about handleDelete,
--     Manager.Deletion about Delete, Run.Bounded, Shutdown and Lost about runs.
--   Frontend: pkg/frontend. Gate is validate.go, asyncoperations.go and the checks of
--     openshiftcluster_putorpatch.go, of which Put is the rest; Delete, Read, Operations,
--     Subscriptions and Listing are the other handlers. Middleware is pkg/frontend/middleware, Routes
--     the router of frontend.go with the handlers behind their middleware. Allowed, Applied, Accepted,
--     Deleted, Redacted, Absorbed and Routes.Served, with Fits and Passed, are about them.
--   Authorizer: pkg/util/clientauthorizer/arm.go, the certificates that the resource manager may use,
--     read again every hour; Latest is about it.
--   Lifecycle: what the front end makes of a cluster that a worker of the back end is done with.
--   Preview: pkg/api/v20191231preview. Cluster has the external types, Convert the conversions,
--     Validate and Static the static validation and Patterns its regular expressions; Dynamic is
--     openshiftcluster_validatedynamic.go, the validation against what Azure answers. Valid, Kept,
--     Profiles and Delta, and Dynamic.Allowed, Passed and Unchecked, are about it.
--   Permissions: pkg/util/permissions, used by the dynamic validation; Granted is about it.
--   Cloud: Subnets is pkg/util/subnet, Dns is pkg/util/dns, PrivateEndpoint is
--     pkg/util/privateendpoint, over the Clients, a record of calls. Dns.Owners and Dns.Names are
--     about the records of a cluster's domain; Dns.Zone is what is documented of a
--     zone, and Memory one for which it holds.
--   Install: Graph is pkg/install/graph.go, the resolution of the graph of assets; Attach is the end of
--     installStorage in 0-installstorage.go, which attaches network security groups to subnets.
--     Phases is Install of install.go, the loop over the phases, which are its arguments.
--     Graph.Resolved, Attach.Kept and, with Changes, Ending and Patched, Phases.Resumed are about them.
--   Immutable: pkg/util/immutable, on values as Go's reflect sees them.
--   Tests, in several places: runs on concrete inputs.
--
-- Bounds. databaseClient.do makes 10 attempts, as maxRetries says, and RetryOnPreconditionFailed 5:
-- the loops are by recursion on the attempts left. A loop over the pages of a query is by recursion
-- on the number of pages that the service has for it and two more, one call for the end and one to
-- spare, after which the model fails with an error of its own; the service is assumed to have
-- finitely many, and Cosmos.Pages and Database.Clusters.Pages are about those numbers of calls being
-- enough. The loops that scale machine sets run as often as the numbers differ. Install has fuel for
-- its three phases, which Phases.Resumed is about. The assets of an installation are resolved to a
-- depth, enough where it is above the rank of the asset. Polling for the permissions of a principal
-- makes 31 tries, as often as the interval fits into the timeout.
--
-- Not modelled: signing and encoding of requests, the headers of answers, the recovery from panics in the
-- middleware, logging and metrics, the other steps of creating a cluster and the templates
-- that they deploy, and the heartbeat, which is one of the other processes. A panic that the server recovers
-- from is the error that it answers with.
pub mod Base
pub mod Api
pub mod Action
pub mod Cosmos
pub mod Azure
pub mod Permissions
pub mod Cloud
pub mod Database
pub mod Authorizer
pub mod Install
pub mod Backend
pub mod Frontend
pub mod Lifecycle
pub mod Immutable
pub mod Preview
