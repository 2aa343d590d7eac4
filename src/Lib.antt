-- ===== src/Lib.antt =====
-- VibeWarden is a security sidecar: a Go program that stands in front of a web application,
-- authenticates its requests, limits them, and lets its outgoing requests pass through a proxy of
-- its own. This library models the parts that decide, and proves what they promise.
--
-- The parts, the files that model them, and the code they follow:
--   Breaker     the three-state circuit breaker: internal/domain/resilience/circuit_breaker.go.
--               `is_open`, `record_success` and `record_failure` are its methods; Breaker.Adapter is
--               internal/adapters/resilience, which adds the events of the transitions.
--   AuthGuard   the lockout of addresses that fail to authenticate: internal/domain/authguard
--               (Policy, Attempts) and, in AuthGuard.Memory, internal/adapters/authguard
--               (MemoryGuard with its bound on tracked keys).
--   Glob        the language's path.Match, on bytes, where the language takes `?` and a class to be
--               one character of UTF-8; the patterns of the next two parts and of the
--               egress routes are matched with it.
--   Access      who reaches the application: Access.Paths is internal/middleware/public_paths.go and
--               exempt_paths.go, Access.Scopes internal/domain/auth/scope_rule.go, Access.ApiKey
--               internal/middleware/api_key.go, and Access.Auth internal/middleware/auth.go.
--   Egress      the proxy of outgoing requests, internal/domain/egress and internal/adapters/egress:
--               Egress.Route (route.go), Egress.Resolver (resolver.go), Egress.Cache (cache.go),
--               Egress.Breakers (circuit_breakers.go, a Breaker for each route), Egress.Bodies
--               (limitedBody and the bodies of requests), Egress.Retry (executeWithRetries and its
--               helpers), Egress.Proxy (the guards of HandleRequest),
--               Egress.Handler (HandleRequest as a whole) and Egress.Dns (dns.go, the guard against
--               private addresses). The other modules there hold proofs.
--   Proposals   changes that an agent proposes and an operator settles: internal/domain/proposal,
--               internal/adapters/proposal/store.go and internal/app/proposal/service.go.
--   Plugins     the life cycle of the plugins and the readiness of the program:
--               internal/plugins/registry.go.
--   Sites       the sites of one proxy and the handlers of changed config files:
--               internal/domain/site and internal/app/reload/multisite_service.go.
--   Health      the state of the upstream as its probes show it: internal/domain/health/health.go;
--               Health.Checker is internal/adapters/health/checker.go, which makes the probes, and
--               Health.Summary the health endpoint: internal/domain/healthsummary,
--               internal/domain/upstream and internal/adapters/caddy/health_handler.go.
--   Secrets     references to secrets: internal/domain/secret/uri.go (ParseURI and, in
--               Secrets.Placeholders, the placeholders of a text), and in Secrets.Aliases the retrieval
--               of a secret: alias.go there and internal/app/secret/service.go.
--   RateLimit   the limits on requests: RateLimit.Bucket is the script that
--               internal/adapters/ratelimit/redis_adapter.go runs in the store, RateLimit.Memory and
--               RateLimit.Fallback are memory.go and fallback_store.go there, and
--               RateLimit.Middleware is internal/middleware/ratelimit.go with ip.go.
--   Admin       the endpoints of the operator: internal/middleware/admin_auth.go (Admin.Auth, which
--               uses AuthGuard), maintenance.go and ready.go.
--   Tls         the certificate that is served: internal/domain/tls, its resolvers in
--               internal/adapters/caddy and internal/app/ops (Tls.Resolvers, Tls.Checks), the budget of
--               issuances (Tls.Preflight: internal/domain/tlspreflight and internal/app/tlspreflight),
--               the watch over its expiry (Tls.Monitor: internal/plugins/tls/monitor.go) and the names
--               without one (Tls.Acme: internal/app/tlsdomain).
--   Webhook     the signatures of webhook requests: internal/domain/webhook/verify.go and, in
--               Webhook.Middleware, internal/middleware/webhook_signature.go.
--   Inputs      the limits on the size of a request: internal/middleware/input_validation.go.
--   IpFilter    the filter of client addresses: internal/domain/ipfilter/matcher.go and
--               internal/adapters/caddy/ipfilter_handler.go.
--   Events      the ring buffer of the latest events: internal/adapters/log/ringbuffer.go.
--   Prelude     shared lists, tests, integers, byte strings, results and the maps, the splitting of
--               texts, and path.Clean (Prelude.CleanPath).
--
-- State is passed explicitly: an operation takes the state and gives the new one beside its result.
-- A mutex is held for the whole of an operation in the code, so operations follow one another, and a
-- sequence of them is a list of calls. A map is an association list whose order stands for the order
-- in which a range loop meets the entries, which the language leaves open. Numbers are natural
-- numbers; int and time.Duration values that can be negative are the integers of Prelude.Int, and
-- the one product that can overflow, the backoff of a retry, is wrapped at 64 bits. An instant is a
-- number of nanoseconds in which 0 is the zero time.
--
-- Loops are by recursion on the list, or on the number of rounds they can still make: the eviction
-- of the cache makes at most one round for each entry, and the attempts of a request at most one and
-- the retries that its route allows. Nothing runs on other fuel.
--
-- Parameters stand for what is not in the repository or not a decision of it: the identity provider,
-- the validator of keys, the upstream of the egress proxy with its clock, the limiter of the
-- language's library, the stores of secrets, the keyed hashes, what a TLS dial gives, the applier of
-- proposals, the calls of a plugin, the loading of a config and the reload of the proxy. Left out
-- are input and output, metrics, spans and log lines, the configuration of the embedded Caddy
-- server, the commands, the generators and the MCP server.
pub mod Prelude
pub mod Breaker
pub mod AuthGuard
pub mod Glob
pub mod Access
pub mod Egress
pub mod Proposals
pub mod Plugins
pub mod Sites
pub mod Health
pub mod Secrets
pub mod RateLimit
pub mod Admin
pub mod Tls
pub mod Events
pub mod Webhook
pub mod Inputs
pub mod IpFilter
