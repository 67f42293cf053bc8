-- ===== src/Profile.antt =====
-- pkg/wmp/profile.go and the interface of pkg/wmp/handler.go: what an application plugs into a peer.
-- An interface is a record of its methods. The state of the application is a type `W`: a method takes
-- it and returns it. A Go pair (*T, error) is a pair of options.
pub mod Base
use go_wmp.Prelude.{String, Option, List}
use go_wmp.Prelude.Maps.{Map}
use go_wmp.Types.Json.{Raw, Value}
use go_wmp.Types.Session.{
  SessionCreateParams, SessionCreateResult, SessionResumeParams, SessionResumeResult,
  SessionCloseParams, SessionAuthenticateParams, SessionAuthenticateResult,
}
use go_wmp.Types.Message.{
  MessageDeliverParams, MessageAckParams, MessagePollParams, MessagePollResult, MessageStatusParams,
  CapabilityUpdateParams, CapabilityUpdateResult, CapabilityListParams, CapabilityListResult,
  ResolveParams, ResolveResult, CredentialNotificationParams,
}
use go_wmp.Types.Flow.{
  FlowStartParams, FlowStartResult, FlowProgressParams, FlowActionParams, FlowActionResult,
  FlowCompleteParams, FlowErrorParams, FlowCancelParams, FlowCancelResult,
}
use go_wmp.Jsonrpc.{RpcError}
use go_wmp.Session.{Session}
use go_wmp.Context.{Context}

-- A Go error that is not nil: an `*RPCError`, a nil `*RPCError` inside the interface, or any other.
pub data Failure : Type 0 where
  rpc : RpcError → Failure
  nil_rpc : Failure
  other : String → Failure

abbrev pub Returned : Type 0 → Type 0
Returned A = Option A × Option Failure

-- What a method returns as `interface{}`: a pointer of one of these types, which may be nil inside the
-- interface, or a value of a profile's own.
pub data Reply : Type 0 where
  session_created : Option SessionCreateResult → Reply
  session_resumed : Option SessionResumeResult → Reply
  session_authenticated : Option SessionAuthenticateResult → Reply
  message_polled : Option MessagePollResult → Reply
  capability_updated : Option CapabilityUpdateResult → Reply
  capability_listed : Option CapabilityListResult → Reply
  flow_started : Option FlowStartResult → Reply
  flow_acted : Option FlowActionResult → Reply
  flow_cancelled : Option FlowCancelResult → Reply
  resolved : Option ResolveResult → Reply
  custom : Value → Reply

pub record DiscoveredEndpoint : Type 0 where
  pub endpoint : String
  pub capabilities : Map Value
  pub relay : String
  pub mls_key_packages : String

module _ (W : Type 0) where
  pub record FlowHandler : Type 0 where
    pub flow_types : List String
    pub start_flow : Context → FlowStartParams → W → Returned FlowStartResult × W
    pub handle_action : Context → FlowActionParams → W → Returned FlowActionResult × W
    pub handle_progress : Context → FlowProgressParams → W → W
    pub handle_complete : Context → FlowCompleteParams → W → W
    pub handle_error : Context → FlowErrorParams → W → W

  pub record MethodHandler : Type 0 where
    pub methods : List String
    pub handle_method : Context → String → Raw → W → Returned Reply × W

  pub record ResolveHandler : Type 0 where
    pub resolve_types : List String
    pub handle_resolve : Context → ResolveParams → W → Returned ResolveResult × W

  -- The hook receives a pointer, so it returns the session as it leaves it.
  pub record SessionHook : Type 0 where
    pub on_session_create :
        Context → Session → SessionCreateParams → W → Option Failure × Session × W
    pub on_session_close : Context → Session → SessionCloseParams → W → W

  pub record IdentifierResolver : Type 0 where
    pub schemes : List String
    pub resolve : Context → String → W → Returned DiscoveredEndpoint × W

  -- A profile, with the optional interfaces that its value implements.
  pub record Profile : Type 0 where
    pub name : String
    pub capabilities : List String
    pub init : W → Option Failure × W
    pub flow_handler : Option FlowHandler
    pub method_handler : Option MethodHandler
    pub resolve_handler : Option ResolveHandler
    pub session_hook : Option SessionHook
    pub identifier_resolver : Option IdentifierResolver

  -- The interface `Handler`, and `CredentialNotificationHandler` where the value implements it.
  pub record Handler : Type 0 where
    pub session_create : Context → SessionCreateParams → W → Returned SessionCreateResult × W
    pub session_resume : Context → SessionResumeParams → W → Returned SessionResumeResult × W
    pub session_close : Context → SessionCloseParams → W → W
    pub session_authenticate :
        Context → SessionAuthenticateParams → W → Returned SessionAuthenticateResult × W
    pub message_deliver : Context → MessageDeliverParams → W → W
    pub message_ack : Context → MessageAckParams → W → W
    pub message_poll : Context → MessagePollParams → W → Returned MessagePollResult × W
    pub message_status : Context → MessageStatusParams → W → W
    pub capability_update :
        Context → CapabilityUpdateParams → W → Returned CapabilityUpdateResult × W
    pub capability_list : Context → CapabilityListParams → W → Returned CapabilityListResult × W
    pub flow_start : Context → FlowStartParams → W → Returned FlowStartResult × W
    pub flow_progress : Context → FlowProgressParams → W → W
    pub flow_action : Context → FlowActionParams → W → Returned FlowActionResult × W
    pub flow_complete : Context → FlowCompleteParams → W → W
    pub flow_error : Context → FlowErrorParams → W → W
    pub flow_cancel : Context → FlowCancelParams → W → Returned FlowCancelResult × W
    pub resolve : Context → ResolveParams → W → Returned ResolveResult × W
    pub credential_notification : Option (Context → CredentialNotificationParams → W → W)
