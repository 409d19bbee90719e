-- ===== src/Lib.antt =====
-- Openserve: a self-hosted platform that serves language models behind one API gateway.
--
-- The gateway (apps/gateway) takes a request, finds its deployment, checks the API key against the
-- key table, asks the rate limiter in Redis, resolves the deployment to a pod and streams the
-- answer back while it reads the token usage. Keys are made by the control API
-- (apps/control-api/internal/keygen). The relay (apps/peer-relay) holds the connections of peers'
-- machines and passes requests for their models on.
-- The control API (apps/control-api) keeps orgs, members, keys, peers, deployments, conversations,
-- templates and documents in PostgreSQL for the web console; its key table is the one that the
-- gateway reads, its peers and invites those that the relay and the gateway ask for.
-- The operator (operator) runs a model for each ModelDeployment and registers its route.
--
-- Files and the code that they model:
--   Prelude: shared names, lists, byte strings, Go's maps, decimal numbers, 32-bit integers,
--     FNV-1a, base64 and fmt.Sscanf.
--   Gateway/Routing: apps/gateway/internal/routing/router.go (FileRouter: reload, watchFile,
--     Resolve, PrefixResolve, Close).
--   Gateway/Auth, Gateway/Auth/Hash: apps/gateway/internal/auth/validator.go (Validate,
--     verifyArgon2idPHC, constantTimeCompare).
--   Gateway/RateLimit: apps/gateway/internal/ratelimit/redis.go (luaScript, Allow, RecordTokens)
--     over the sorted sets of Gateway/RateLimit/Redis.
--   Gateway/Proxy: apps/gateway/internal/proxy/proxy.go. ServeHTTP is cut at its early returns into
--     serve_http, find_target, authenticate, authorized, rate_limited, route, forward and answer;
--     servePeer is Peer, extractCacheKey is CacheKey, the read loop is Stream; Targets says which
--     deployment a request names. A run is the reply
--     and the list of effects in order; the services are a record of functions.
--   Gateway/Whole: the wiring of apps/gateway/cmd/main.go.
--   Keys: apps/control-api/internal/keygen/keygen.go (Generate, Hash, Verify, Prefix).
--   Relay/Hub: apps/peer-relay/internal/relay/hub.go (Register, Unregister, IsOnline, Dispatch and
--     the beginning of Forward); Relay/Session: the select loop of Forward.
--   Relay/Handler: apps/peer-relay/internal/relay/handler.go (verifyArgon2Token, ConnectPeer,
--     PeerOnline, ForwardToPeer); Relay/Repeated: its read loop over the frames of one request. The
--     connections are places in a store; `is_open` says that the relay has not closed the websocket.
--   PeerAgent: apps/peer-agent/cmd/main.go (handleRequest, the frames of run, the waits of main).
--   Operator/Engine: operator/internal/engine. Operator/Sync: operator/internal/gateway/sync.go.
--   Operator/Types, Operator/Controller, Operator/Controller/Reconcile:
--     operator/internal/controller/modeldeployment_controller.go, one run of Reconcile against a
--     cluster in which each call may fail; its effects are those of the calls that succeed.
--     Operator/Address compares the route with the Service. Operator/Budget:
--     budgetpolicy_controller.go and apikey_controller.go beside it and operator/internal/budget,
--     over the operations of float64 as an interface. Operator/Scaling:
--     operator/internal/scaling/keda.go.
--   Identity: apps/control-api/internal/auth/oidc.go (EmailDomain, Verify, JWTMiddleware).
--   Middleware: apps/control-api/internal/middleware/middleware.go (RequestID, RealIP, RateLimit).
--   ControlApi: apps/control-api/internal/handler/handler.go and peers.go. Tables has the rows of
--     internal/db/migrations as records and the clauses of SQL as functions of lists; Database runs
--     a handler: each statement meets a verdict (answered, refused, or run with its answer lost),
--     `http.Error` with `return` ends the handler, an audit entry or a document waits for its
--     goroutine, a transaction works on a copy of the tables that the commit puts in their place.
--     Peers, Keys, Members, Settings, Usage, Webhooks, Templates, Conversations, Deployments,
--     Documents and Login hold the handlers, one function each, Routes the table of routes of
--     cmd/server/main.go, Catalog internal/catalog/client.go, Lookups the handlers that only read
--     and internal/rag/retrieve.go, Chunk internal/rag/chunk.go. History is what can happen one
--     after the other: calls, sign-ins, audit entries and documents.
-- In each part Laws and the files beside it hold the proofs, Tests the examples.
--
-- Text is a list of bytes. Times are seconds, milliseconds or an order on natural numbers; a
-- float32 is its bit pattern, an amount of money a number of hundredths of a cent.
-- `strings.ToLower` is that of ASCII; slugify's also has the two characters beyond ASCII that
-- become ASCII letters. A panic that the server recovers is the response 500. An int32 is an
-- integer whose wrap-around is written out where the code can overflow.
--
-- Parameters: argon2.IDKey with the length that it gives and the costs for which it panics, the
-- JSON and YAML decoders, the HTTP client, the database's rows, the random source, and Redis's
-- sorted sets with the laws that its commands document, the OIDC verifier and the JWT parser, the
-- Kubernetes API's answers, the PDF reader, the embedding service, the vector index, the catalog
-- service, the web search, the peer's local server, the operations of float64, and the ids, times
-- and errors that the database gives.
--
-- The loops of the code are structural recursion. Only printing a number runs on fuel: n + 1 steps
-- for the decimal digits of n, which are fewer, and 8 steps for the hexadecimal digits of a uint32.
--
-- Statements of different calls of the control API follow one another: what two concurrent calls do
-- between each other's statements is not modelled, nor is the installation of the peer agent.
--
-- Not modelled: logging, metrics, start-up and flag parsing, locks that are held for a whole
-- operation, the web console, and the client libraries that the code calls.
pub mod Prelude
pub mod ControlApi
pub mod Gateway
pub mod Identity
pub mod Keys
pub mod Middleware
pub mod Operator
pub mod PeerAgent
pub mod Relay
