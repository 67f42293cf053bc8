-- ===== src/Types/Session.antt =====
-- pkg/wmp/types.go and pkg/wmp/methods.go: the parameters and results of the session methods.
use go_wmp.Prelude.{String, Bool, List, Option}
use go_wmp.Prelude.Int.{ℤ}
use go_wmp.Types.Json.{Raw, Capabilities}
use go_wmp.Types.Envelope.{Metadata}

pub record SecurityMode : Type 0 where
  pub mode : String
  pub min_tls_version : String
  pub cipher_suites : List ℤ
  pub cipher_suite : Option ℤ
  pub mls_group_info : String
  pub encrypted_capabilities : List String

pub record AuthObject : Type 0 where
  pub type : String
  pub token : String
  pub proof : String
  pub challenge : String
  pub signature : String
  pub x5c : List String
  pub did_auth : Raw

pub record SessionCreateParams : Type 0 where
  pub wmp : Metadata
  pub participants : List String
  pub capabilities_offered : Capabilities
  pub security : SecurityMode
  pub ttl : ℤ
  pub auth : Option AuthObject
  pub invitation_nonce : String

pub record SessionCreateResult : Type 0 where
  pub wmp : Metadata
  pub capabilities : Capabilities
  pub security : SecurityMode
  pub challenge : String
  pub resumption_token : String

pub record SessionResumeParams : Type 0 where
  pub wmp : Metadata
  pub session_id : String
  pub resumption_token : String
  pub last_received_id : String

pub record SessionResumeResult : Type 0 where
  pub wmp : Metadata
  pub resumed : Bool
  pub resumption_token : String
  pub missed_messages : ℤ
  pub capabilities : Capabilities
  pub security : SecurityMode

pub record SessionCloseParams : Type 0 where
  pub wmp : Metadata
  pub reason : String

pub record SessionAuthenticateParams : Type 0 where
  pub wmp : Metadata
  pub auth : AuthObject

pub record SessionAuthenticateResult : Type 0 where
  pub wmp : Metadata
  pub authenticated : Bool
  pub identity : String
