-- ===== src/Lib.antt =====
-- go-wmp: the Wallet Messaging Protocol, a peer-to-peer protocol of JSON-RPC 2.0 messages in Go.
--
-- A peer (pkg/wmp/peer.go) reads texts from a transport, decodes them under limits of size and depth
-- (pkg/wmp/jsonrpc.go), and gives requests to goroutines, which pass them through an authorizer, a
-- validator, an enrichment of the context and a chain of middleware to a dispatcher. The dispatcher
-- calls the application's handler, or the profile that the registry (pkg/wmp/registry.go) names for a
-- flow, a method or a resolve type. Sessions and invitations have stores in memory
-- (pkg/wmp/session.go, pkg/wmp/invitation.go). A relay (pkg/wmp/relay/relay.go) is a method handler
-- that keeps queues for participants who are offline. Two profiles come with the library: OpenID4X
-- (pkg/wmp/openid4x) routes the flows of OID4VCI and OID4VP to their handlers, and MLS (pkg/wmp/mls)
-- hands the methods of groups to a provider. Messages travel through channels
-- (pkg/wmp/channel_transport.go), as lines (pkg/wmp/stdio) or over HTTP and server-sent events (pkg/wmp/httpsse), which replays
-- missed events on reconnection. A client finds an endpoint by discovery (pkg/wmp/discovery.go), and a
-- validator (pkg/wmp/schema) checks parameters against compiled schemas, which it caches.
--
-- Files, with the code they model:
--   Prelude            what all files share: numbers, lists, finite maps, Boolean tests
--   Errors             pkg/wmp/errors.go: the codes and ErrorMessage
--   Types              pkg/wmp/types.go, pkg/wmp/methods.go: the structs as records, field by field
--   Jsonrpc            pkg/wmp/jsonrpc.go: constructors and predicates; Jsonrpc/Depth has depth,
--                      Jsonrpc/Decode DecodeMessage and checkMessageDepth, Jsonrpc/Batch DecodeBatch
--   Sweep              the loops over the stores that read the clock in each round
--   Session            pkg/wmp/session.go: MemorySessionStore
--   Invitation         pkg/wmp/invitation.go: MemoryInvitationStore, ValidateInvitationNonce;
--                      Invitation/Uri has signing payloads and URIs
--   Relay              pkg/wmp/relay/relay.go: every method of the relay
--   Context            pkg/wmp/context.go: the three values of a request's context
--   Profile            pkg/wmp/profile.go, pkg/wmp/handler.go: the interfaces; Profile/Base has
--                      BaseHandler
--   Registry           pkg/wmp/registry.go: register, flow owners, hooks, middleware, resolvers
--   Peer               pkg/wmp/peer.go: Peer/Dispatch has dispatchMethodInternal, one function for each
--                      larger case; Peer/Requests handleRequest; Peer/Sync HandleRequestSync; Peer/Serve
--                      a round of Serve; Peer/Calls CallWithID and handleResponse, in steps
--   FlowContext        pkg/wmp/flowcontext.go: AsyncFlowProfile, its contexts and channels, in steps
--   Openid4x           pkg/wmp/openid4x/openid4x.go: the profile; Openid4x/Names has the constants,
--                      Openid4x/Validation the checks
--   Mls                pkg/wmp/mls/mls.go: the handler interface and the profile; Mls/Noop has the
--                      handler and the provider of pkg/wmp/mls/noop.go
--   Httpsse            pkg/wmp/httpsse/httpsse.go: the server's sessions, the replay of events, the
--                      handlers of GET and POST, the client's reader of events
--   Discovery          pkg/wmp/discovery.go: the checks on domains, the URLs, the Discover functions
--   Channel            pkg/wmp/channel_transport.go: the transport over two channels, in steps
--   Schema             pkg/wmp/schema/schema.go: the cache of schemas and the validator's answers
--   Stdio              pkg/wmp/stdio/stdio.go: the transport over lines
--   Fixtures, */Examples  sample data, and the theorems at it
--
-- How the code is read. A method that holds a mutex from start to end is one step on a state that is
-- passed along; the time is an argument, one reading for each call of time.Now. A Go map is an
-- association list, whose order stands for the order in which range meets the keys. A pair (*T, error)
-- is a pair of options. An interface that an application implements is a record of functions over the
-- application's own state; a theorem about the peer holds for all of them.
-- The session store is the peer's alone: an application that changes the store's object in a handler is
-- outside the model. encoding/json is the records
-- Codec and Structs; what a theorem needs of it, or of net/url and base64, is a hypothesis of that
-- theorem. Sizes are counted in bytes; Go's int is ℤ where it can be negative; the number of the next
-- event is its 64 bits, and times and durations do not wrap. Functions of the package strings are
-- functions on lists of characters, and a stream of events is the list of its lines. Every loop is
-- structural recursion, so there is no fuel.
--
-- Not modelled: the logger; pkg/wmp/ws, which does input and output over a WebSocket library;
-- pkg/wmp/evidence.go; the requests that the client of pkg/wmp/httpsse sends (ConnectSSE, WriteMessage,
-- Close) and the waiting of its readers; the notifications that a flow sends (pkg/wmp/flowcontext.go);
-- the random bytes of GenerateNonce and NewInvitation; Use, Notify, SendRaw, Close and the options of a
-- Peer. Each goroutine of handleRequest is one step: the interleaving of two requests inside the
-- dispatcher is not modelled; the steps of calls, of the flow profile and of a channel interleave.
pub mod Prelude
pub mod Errors
pub mod Types
pub mod Jsonrpc
pub mod Sweep
pub mod Session
pub mod Invitation
pub mod Relay
pub mod Context
pub mod Profile
pub mod Registry
pub mod Peer
pub mod FlowContext
pub mod Openid4x
pub mod Mls
pub mod Httpsse
pub mod Discovery
pub mod Channel
pub mod Schema
pub mod Stdio
pub mod Fixtures
