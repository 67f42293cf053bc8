-- ===== src/Peer.antt =====
-- pkg/wmp/peer.go: the peer. This file holds its state and the records of what it is given; the
-- children model the dispatcher, the two request handlers, the read loop and the outgoing calls.
pub mod Dispatch
pub mod Flows
pub mod Frame
pub mod Requests
pub mod Responses
pub mod Enrichment
pub mod Sessions
pub mod Sync
pub mod Serve
pub mod Rounds
pub mod Agreement
pub mod Calls
mod Examples
mod SessionTests
use go_wmp.Prelude.{
  ◌≡◌, arith, ℕ, String, Bool, true, false, Option, none, some, List, [], ◌∷◌, str_eq, ltb,
  if◌then◌else◌,
}
use go_wmp.Prelude.Int.{ℤ, pos, negsuc}
use go_wmp.Errors.{err_internal_error, err_invalid_params}
use go_wmp.Types.Json.{Raw}
use go_wmp.Types.Envelope.{Metadata}
use go_wmp.Types.Session.{
  SessionCreateParams, SessionResumeParams, SessionCloseParams, SessionAuthenticateParams,
}
use go_wmp.Types.Message.{
  MessageDeliverParams, MessageAckParams, MessagePollParams, MessageStatusParams,
  CapabilityUpdateParams, CapabilityListParams, ResolveParams, CredentialNotificationParams,
}
use go_wmp.Types.Flow.{
  FlowStartParams, FlowProgressParams, FlowActionParams, FlowCompleteParams, FlowErrorParams,
  FlowCancelParams,
}
use go_wmp.Jsonrpc.{RpcError, Response, new_rpc_error}
use go_wmp.Context.{Context}
use go_wmp.Profile.{Failure, rpc, nil_rpc, other, Reply, Returned, Handler}
use go_wmp.Registry.{Registry, Middleware}

-- What changes while a peer serves: its registry, its session store if it has one, and the state of
-- the application's handlers. The store is the peer's alone: an application that keeps the object it
-- passed to `WithSessionStore` and changes it in a handler is outside the model.
pub record State (W S : Type 0) : Type 0 where
  pub registry : Registry W
  pub sessions : Option S
  pub world : W

-- The rest of `Peer`. A validator returns an error text.
pub record Peer (W S : Type 0) : Type 0 where
  pub handler : Handler W
  pub middleware : List (Middleware (State W S))
  pub max_message_size : ℤ
  pub validator : Option (String → Raw → Option String)
  pub authorizer : Option (Context → String → Raw → Bool)

-- encoding/json at the structs of the messages: `json.Unmarshal` of the parameters (`none` is an
-- error), of the envelope `{"wmp": ...}`, and `json.Marshal` of results and responses.
pub record Structs : Type 0 where
  pub session_create : String → Option SessionCreateParams
  pub session_resume : String → Option SessionResumeParams
  pub session_close : String → Option SessionCloseParams
  pub session_authenticate : String → Option SessionAuthenticateParams
  pub message_deliver : String → Option MessageDeliverParams
  pub message_ack : String → Option MessageAckParams
  pub message_status : String → Option MessageStatusParams
  pub message_poll : String → Option MessagePollParams
  pub capability_update : String → Option CapabilityUpdateParams
  pub capability_list : String → Option CapabilityListParams
  pub flow_start : String → Option FlowStartParams
  pub flow_progress : String → Option FlowProgressParams
  pub flow_action : String → Option FlowActionParams
  pub flow_complete : String → Option FlowCompleteParams
  pub flow_error : String → Option FlowErrorParams
  pub flow_cancel : String → Option FlowCancelParams
  pub resolve : String → Option ResolveParams
  pub credential_notification : String → Option CredentialNotificationParams
  pub envelope : String → Option Metadata
  pub marshal_reply : Reply → Option String
  pub marshal_response : Response → Option String

-- `toRPCError` of an error that is not nil.
unfoldable pub to_rpc_error : Failure → Option RpcError
to_rpc_error (rpc e) = some e
to_rpc_error nil_rpc = none
to_rpc_error (other s) = some (new_rpc_error err_internal_error none)

-- An `*RPCError` that is returned as an `error`.
abbrev pub as_failure : Option RpcError → Failure
as_failure (some e) = rpc e
as_failure none = nil_rpc

abbrev pub version : String
version = "0.1"

abbrev pub supported_versions : List String
supported_versions = version ∷ []

version_in : String → List String → Bool
version_in v [] = false
version_in v (w ∷ ws) = let rest = version_in v ws in if str_eq w v then true else rest

unfoldable pub is_supported_version : String → Bool
unfolding version_in
is_supported_version v = version_in v supported_versions

pub is_supported_version_lem : (v : String) → is_supported_version v ≡ str_eq "0.1" v
unfolding is_supported_version
is_supported_version_lem v = ground arith

-- `len(data) > p.maxMessageSize`
abbrev pub exceeds : ℕ → ℤ → Bool
exceeds n (pos m) = ltb m n
exceeds n (negsuc m) = true

-- pkg/wmp/methods.go, `IsValidCredentialEvent`.
unfoldable pub is_valid_credential_event : String → Bool
is_valid_credential_event event =
    if str_eq event "credential_accepted" then true else str_eq event "credential_failure"
