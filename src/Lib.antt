-- ===== src/Lib.antt =====
-- perfect-ws: remote calls over a web socket that survive reconnections.
--
-- The program. A router (src/PerfectWS.ts) is a client or a server. The client's `request` opens
-- an active request and sends it; the server's `_onRequest` opens an active response, runs the
-- handlers and answers. Frames that must arrive go through `_sendWithAck`, which keeps a packet
-- pending and sends it again until the peer acknowledges it; the peer's `_acceptPacket` sends the
-- acknowledgement and drops a packet that it has seen, so that a retry is not handled twice. When a
-- connection is lost, the client's active request stays, and is replayed or released after
-- `_syncRequests` on the next connection; the server's active response is moved to the new socket.
-- Values that JSON or BSON cannot carry are changed by the advanced router
-- (src/PerfectWSAdvanced/), whose remote objects are read by property paths. The hosts of src/auth/
-- check a password before they attach a socket.
--
-- The files.
--   Base, JsMap: the Boolean tests, lists and equality that all parts share; the language's `Map`
--     as a list of entries in the order of insertion, with its laws.
--   Protocol: the shape of errors, the names of internal events.
--   Ack.Dedupe: `_acceptPacket` and the rounds of `_startAckCleanupLoop` over the tables of
--     processed packets, in src/PerfectWS.ts. The clock is an argument.
--   Ack.Send: `_sendWithAck`, in src/PerfectWS.ts. An attempt is a function of its surroundings:
--     whether the socket is open, whether the signal is aborted, whether the frame can be handed
--     over or the serializer throws, how the wait ends, and the table of pending packets as other code leaves it.
--   Response: the closures of `_onRequest` over one active response (`sendJSON`, `send`, `reject`,
--     `beginResponseFinish`, `endResponse`, `releaseResponse`, `relayLocalEvent`, the timeout), and
--     `_connectWSToOnRequestResponse`. The shared variables are the fields of a record; each turn
--     of the event loop is an event, and an `await` ends a turn. `Response.Events.Reach` holds
--     the states that turns lead to, in any order that the code admits.
--   Admission: the way of a packet through `_onRequest` of src/PerfectWS.ts, up to the response that
--     it begins or reaches: acknowledgements, the identity of the socket, duplicates, unknown
--     events, the limits; and the handler of `___syncRequests`. It uses Ack.Dedupe and
--     PendingAborts; its table is a list in which `find_response` finds what
--     `_getActiveResponse` does (see ResponseTable); Admission.Sync ends responses as Response does.
--   Handlers: the loop of `_onRequest` over a route's callbacks, src/middleware/zodValidation.ts
--     and src/middleware/dataMiddleware.ts. The schema is a parameter.
--   ResponseTable: `_getActiveResponse`, `_setActiveResponse` and `_deleteActiveResponse`, in
--     src/PerfectWS.ts. Responses are references; the text that `JSON.stringify` gives for a pair
--     is a parameter.
--   PendingAborts: `_pendingAborts`, in `_onRequest` and `_clearOldRequests` of src/PerfectWS.ts.
--   Request: the closures of `request` over one active request (`callback`, `releaseRequest`,
--     `relayLocalEvent`, `failSend`, `replay`, `retryOnClose`, the timeouts), with
--     `_onServerResponse` and the part of `_syncRequests` about one request, in the same way.
--   Auth.RateLimiter: `PasswordRateLimiter` of src/auth/utils/PasswordRateLimiter.ts.
--   Socket: the close listeners of src/utils/WebSocketForce.ts, with `forceClose`, `once` and the
--     handler on the wrapped socket. What a listener does to the wrapper when it is called, and
--     whether the wrapped socket sends its event from within `close`, are parameters.
--   Emitter: src/utils/EventEmitter.ts, with what the listeners do to it while they are called.
--   Auth.ServerHost: `_onConnection` of src/auth/ServerHost/ServerHost.ts, with
--     src/auth/utils/validatePassword.ts and the limiter of Auth.RateLimiter, over connections whose
--     turns are interleaved in any order.
--   Auth.RemoteServer: one attachment of src/auth/ClientHost/RemoteServer.ts: the loop of
--     `attachClient`, the handshake, `unregister` and `stop`, in turns between awaits.
--   Connection: `_setServer` of src/PerfectWS.ts with the handlers of its socket, `serverOpen`, and
--     the release of a client router, in turns between awaits.
--   Sending.Client, Sending.Server: the loops of `sendRequestRetry` and of `sendJSON` in
--     src/PerfectWS.ts around `_sendWithAck` (see Ack.Send), over the rounds that they meet.
--   Callbacks: src/PerfectWSAdvanced/transform/TransformCallbacks.ts. Callbacks.Owned: one function
--     of this side, its serializations and releases, with the transactions of
--     src/PerfectWSAdvanced/transform/utils/changeType.ts. Callbacks.Calls: the calls of the peer's
--     functions. Callbacks.Incoming: the peer's calls of this side's functions. Callbacks.Received:
--     the wrappers of the peer's functions, until their release.
--   LongTimeout: `setLongTimeout` of src/utils/setLongTimeout.ts, without the cancellation.
--   PropertyPath: src/PerfectWSAdvanced/transform/utils/getProperty.ts. A text is a list of code
--     units; which properties objects have themselves and what reading them gives, inherited ones
--     too, are parameters, as is the receiver's table of symbols.
--   PureRpc.Registry: src/PerfectWSAdvanced/transform/utils/PureRPCRegistry.ts: the handles of
--     remote objects and the resolution of a path from one of them.
--
-- Numbers are natural: times are milliseconds, and the limits of the configuration are natural too,
-- so that `Math.max(0, ...)` leaves them as they are. Objects that are compared by identity are numbers.
-- The loops go over lists, of packets, entries, delays, code units, segments, listeners, callbacks,
-- registrations, or the rounds that a loop of Sending meets, but for three. The fuel of
-- `setLongTimeout` is the number of calls of `schedule`, of which one more is enough than the delay
-- has multiples of the longest timer. The search for the owner of a property in PureRpc.Registry
-- has fuel for a chain of prototypes, of which one more than the length of the chain is enough. An
-- emission of Socket is given the depth of the emissions that listeners may start within it, of
-- which 1 is enough.
--
-- Not modelled: the sockets and timers of the platform, whose events are the events of the models;
-- JSON and BSON, so that a frame is what is handed to the serializer; logging. Routers and their
-- mounts, the ping loop, the other transformations of values and
-- the other hosts have no model: what the modelled parts use of them is an input, as
-- `shouldKeepResponseAlive` and `_unregistered` are for a response, the names of the routes for the
-- admission of a request, or the end of a wait for a server for a loop of Sending.
pub mod Base
pub mod JsMap
pub mod Protocol
pub mod Ack
pub mod Response
pub mod ResponseTable
pub mod PendingAborts
pub mod Request
pub mod Auth
pub mod LongTimeout
pub mod Emitter
pub mod PropertyPath
pub mod PureRpc
pub mod Handlers
pub mod Socket
pub mod Admission
pub mod Callbacks
pub mod Sending
pub mod Connection
