-- ===== src/Types/Envelope.antt =====
-- pkg/wmp/types.go: the envelope that every message carries.
use go_wmp.Prelude.{String, Bool, List, Option}
use go_wmp.Prelude.Int.{ℤ}
use go_wmp.Types.Json.{Time}

pub record TrustHint : Type 0 where
  pub framework : String
  pub lote_url : String
  pub issuer_service_id : String
  pub trust_anchor : String
  pub entity_statement : String
  pub root_ca : String
  pub uri : String
  pub validation_endpoint : String

pub record IdentityAssertion : Type 0 where
  pub type : String
  pub format : String
  pub vp_token : String
  pub audience : String
  pub nonce : String
  pub disclosed_claims : List String
  pub x5c : List String
  pub trust_hints : List TrustHint

pub record RelayEntry : Type 0 where
  pub relay : String
  pub relay_id : String
  pub timestamp : Time
  pub timestamp_token : String
  pub signature : String
  pub service_class : String

pub record DelegateAuthorization : Type 0 where
  pub type : String
  pub credential : String
  pub scope : List String
  pub valid_until : String

pub record SenderDelegate : Type 0 where
  pub id : String
  pub identity_assertions : List IdentityAssertion
  pub authorization : Option DelegateAuthorization

pub record Metadata : Type 0 where
  pub version : String
  pub session_id : String
  pub sender : String
  pub timestamp : Option Time
  pub timestamp_token : String
  pub expires_at : Option Time
  pub encrypted : Bool
  pub epoch : Option ℤ
  pub signature : String
  pub identity_assertions : List IdentityAssertion
  pub relay_chain : List RelayEntry
  pub trace_id : String
  pub sender_delegate : Option SenderDelegate
  pub deliver_after : Option Time
