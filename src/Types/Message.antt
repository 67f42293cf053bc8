-- ===== src/Types/Message.antt =====
-- pkg/wmp/methods.go: the parameters and results of the message, capability, resolve and relay
-- methods.
use go_wmp.Prelude.{String, Bool, List, Option}
use go_wmp.Prelude.Int.{ℤ}
use go_wmp.Types.Json.{Raw, Capabilities}
use go_wmp.Types.Envelope.{Metadata}
use go_wmp.Types.Session.{SecurityMode, AuthObject}

pub record MessageDeliverParams : Type 0 where
  pub wmp : Metadata
  pub to : List String
  pub content_type : String
  pub body : Raw
  pub ciphertext : String
  pub reply_to : String
  pub in_reply_to : String
  pub message_type : String
  pub consignment_mode : String
  pub recipient_assurance_level : String
  pub applicable_policies : List String

pub record MessageAckParams : Type 0 where
  pub wmp : Metadata
  pub message_ids : List String
  pub status : String

pub record MessagePollParams : Type 0 where
  pub wmp : Metadata
  pub since : String
  pub limit : ℤ

pub record MessagePollResult : Type 0 where
  pub wmp : Metadata
  pub messages : List Raw

pub record MessageStatusParams : Type 0 where
  pub wmp : Metadata
  pub message_id : String
  pub status : String
  pub reason : String

pub record CapabilityUpdateParams : Type 0 where
  pub wmp : Metadata
  pub add : Capabilities
  pub remove : List String
  pub security : Option SecurityMode

pub record CapabilityUpdateResult : Type 0 where
  pub wmp : Metadata
  pub capabilities : Capabilities
  pub security : SecurityMode

pub record CapabilityListParams : Type 0 where
  pub wmp : Metadata

pub record CapabilityListResult : Type 0 where
  pub wmp : Metadata
  pub capabilities : Capabilities
  pub security : SecurityMode

pub record ResolveParams : Type 0 where
  pub wmp : Metadata
  pub type : String
  pub uri : String
  pub options : Raw

pub record ResolveResult : Type 0 where
  pub wmp : Metadata
  pub type : String
  pub uri : String
  pub metadata : Raw
  pub trust_info : Raw

pub record CredentialNotificationParams : Type 0 where
  pub wmp : Metadata
  pub flow_id : String
  pub notification_id : String
  pub event : String
  pub event_description : String

pub record RelayRegisterParams : Type 0 where
  pub wmp : Metadata
  pub auth : Option AuthObject

pub record RelayRegisterResult : Type 0 where
  pub wmp : Metadata
  pub registered : Bool
  pub ttl : ℤ
