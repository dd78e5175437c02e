-- ===== src/Lib.antt =====
-- securesupabase-js: the edge functions that stand between a client and the database, the secure
-- client that talks to them, the PostgREST client, the functions client, the lock and the refresh
-- of the auth client, and the pure parts of the realtime client.
--
-- How the parts interact. The secure client (packages/core/supabase-js/src) gathers a request in a
-- query builder, seals it under a fresh AES key, which it wraps with the edge functions' public
-- RSA key, and sends it by `functions.invoke`. The edge functions
-- (packages/core/supabase-js/templates/secure-edge/functions) check the caller, the blocklists and
-- the rate limit, unseal the request, check it against the allowlists, run it on a client with the
-- caller's own token, and seal the answer under the AES key of the request. Such a client writes
-- its calls into the search parameters, the headers and the body of one HTTP request, and makes a
-- response of what comes back (packages/core/postgrest-js/src). The auth client runs what touches
-- its session under a lock (packages/core/auth-js/src/lib/locks.ts).
--
-- Files and sources. Below, functions/ is short for the folder of the edge functions and src/ for the
-- folder of the client.
--   Prelude.antt, Prelude/: shared names, lists over the native numbers.
--   Js.antt, Js/: strings as lists of code units, and the values of JSON.
--   Edge/Types.antt, Edge/Query.antt: environment, requests, events, services; the requests of zod's
--     schemas in functions/db-proxy/index.ts and the calls on a query builder.
--   Edge/Effects.antt: handlers as actions on the state: a value, an early answer, or a throw.
--   Edge/Cors.antt: functions/_shared/cors.ts (parseCsv is parse_csv, preflightResponse is
--     preflight_response, and so on). Edge/Http.antt: functions/_shared/http.ts and apiErrors.ts.
--   Edge/E2ee.antt: functions/_shared/e2ee.ts. Edge/RateLimit.antt: functions/_shared/rateLimit.ts.
--   Edge/Security.antt: functions/_shared/security.ts.
--   Edge/Gate.antt: the steps that the handlers share. Edge/Quiet.antt: their effects.
--   Edge/DbProxy.antt: functions/db-proxy/index.ts. Edge/AuthProxy.antt: functions/auth-proxy/index.ts.
--   Edge/PublicKey.antt: functions/e2ee-public-key/index.ts.
--   Client/E2ee.antt: src/SecureE2EE.ts. Client/Invoker.antt: src/SecureEdgeInvoker.ts.
--   Client/DbProxy.antt: src/SecureDbProxy.ts. Client/AuthProxy.antt: src/SecureAuthProxy.ts.
--   Realtime/Serializer.antt, Realtime/Transformers.antt, Realtime/Endpoint.antt:
--     packages/core/realtime-js/src/lib/serializer.ts and transformers.ts.
--   Postgrest/Params.antt: the platform's URLSearchParams and Headers. Postgrest/Types.antt,
--     Postgrest/Http.antt, Postgrest/Failure.antt and Postgrest/Response.antt: postgrest-js/src/PostgrestBuilder.ts, with `then` as send.
--   Postgrest/Filters.antt, Postgrest/Transforms.antt, Postgrest/Query.antt, Postgrest/Client.antt:
--     PostgrestFilterBuilder.ts, PostgrestTransformBuilder.ts, PostgrestQueryBuilder.ts and
--     PostgrestClient.ts of the same folder; likeAllOf is like_all_of, and so on.
--   Postgrest/Plans.antt: the plans of functions/db-proxy/index.ts made on these builders, which stand
--     for the SDK that the edge functions are shipped with.
--   Auth/ProcessLock.antt: processLock of packages/core/auth-js/src/lib/locks.ts.
--   Auth/AcquireLock.antt: _acquireLock of packages/core/auth-js/src/GoTrueClient.ts, as moves of its
--     queue; the lock around it is that of ProcessLock.
--   Auth/Refresh.antt: _refreshAccessToken of packages/core/auth-js/src/GoTrueClient.ts and retryable of
--     its lib/helpers.ts.
--   Functions.antt: packages/core/functions-js/src/FunctionsClient.ts, with the types of types.ts.
--   Samples.antt and the Examples.antt of each part: concrete inputs and tests.
--
-- State. The state of an edge function is the map of its rate limiter and the trace of its
-- effects: log entries, lookups, queries and requests sent. The state of the client is the cached
-- public key and the messages sent; that of the secure authentication client has the calls of the
-- auth client too. A query builder of postgrest-js is a record, and each of its methods gives the
-- record after it. The lock's state is the list of the calls of one name with their phases, and
-- its steps are a relation. So are the moves of the queue that the auth client keeps for the calls
-- under its lock, with the moment between the end of the queue and the release of the lock as a
-- state of its own. The awaited answers of services are functions of what happened before, so
-- every theorem holds for all of them; a call that rejects is a throw.
--
-- Parameters. WebCrypto, base64, JSON, String(value), toLowerCase, zod's safeParse, the database,
-- the authentication server, the auth client, parseFloat, URL, fetch and parseInt are fields of
-- Backend, Device, AuthApi, Codec, Runtime and Platform; the answers to a token's refresh and the
-- clock are those of Server. What the round trips rely on is the record IsRuntime: base64,
-- RSA-OAEP and AES-GCM undo themselves, and their results are not empty. Which texts Headers.set
-- takes as a value is a field of Platform.
--
-- Bounds. All recursion is structural, but for the loop of retryable, which has no bound of its
-- own: it runs on fuel for eight attempts, and a theorem shows that these are enough. Times are
-- milliseconds as natural numbers, and the hash keeps the wrap-around of 32 bits written out; its
-- hexadecimal digits are written on fuel, as much as the number itself, where each round divides
-- by 16. Numbers of JSON that are not natural are kept as the text of their literal.
--
-- Not modelled: SecureSupabaseClient.ts and SupabaseClient.ts, the clients of auth-js but for the
-- parts above, storage-js and the sockets of realtime-js (network calls and adapters of
-- libraries), navigatorLock of locks.ts (it rests on the browser's lock manager), abort signals
-- and the timeouts of fetch in postgrest-js and functions-js, warnings, the select parser of
-- postgrest-js (types only), base64url.ts (a copy of another library), the command line tool,
-- scripts and SQL. The lengths in the error messages of serializer.ts are left out. Of a response
-- object only status, headers and body are kept, and console.error has no text.
pub mod Prelude
pub mod Js
pub mod Edge
pub mod Auth
pub mod Client
pub mod Functions
pub mod Realtime
pub mod Postgrest
pub mod Samples
