-- ===== src/Types/Openid4x.antt =====
-- pkg/wmp/openid4x/openid4x.go: the structs of the OpenID4x profile.
use go_wmp.Prelude.{String, Bool, List}
use go_wmp.Prelude.Int.{ℤ}
use go_wmp.Prelude.Maps.{Map}
use go_wmp.Types.Json.{Value}

pub record Oid4vciCapability : Type 0 where
  pub supported_grants : List String
  pub supported_formats : List String
  pub supported_proof_types : List String
  pub batch_issuance : Bool

pub record Oid4vpCapability : Type 0 where
  pub supported_response_modes : List String
  pub supported_formats : List String
  pub supported_algorithms : List String

pub record CredentialDisplay : Type 0 where
  pub name : String
  pub locale : String
  pub description : String
  pub logo_uri : String
  pub logo_alt_text : String
  pub background_color : String
  pub text_color : String

pub record CredentialConfigurationSupported : Type 0 where
  pub format : String
  pub scope : String
  pub vct : String
  pub doctype : String
  pub cryptographic_binding_methods_supported : List String
  pub credential_signing_alg_values_supported : List String
  pub proof_types_supported : Map Value
  pub display : List CredentialDisplay

pub record CredentialResult : Type 0 where
  pub format : String
  pub credential : String
  pub vct : String
  pub c_nonce : String
  pub notification_id : String

pub record VpTokenResult : Type 0 where
  pub vp_token : String
  pub presentation_submission : Value
  pub response_code : String

pub record TransactionData : Type 0 where
  pub data_type : String
  pub params : Map Value
  pub credential_ids : List String
  pub hash_alg : String
  pub transaction_data_hashes_alg : String

pub record SignSubFlowParams : Type 0 where
  pub action : String
  pub nonce : String
  pub audience : String
  pub proof_type : String
  pub parent_flow_id : String
  pub transaction_data : List TransactionData
  pub issuer : String
  pub proof_types_supported : Map Value
  pub count : ℤ
  pub response_uri : String
  pub verifier_jwk_thumbprint : String
  pub reissuance_kid : String
  pub htm : String
  pub htu : String
  pub dpop_nonce : String
  pub ath : String
  pub key_id : String

pub record SelectionAction : Type 0 where
  pub selected_indices : List ℤ
  pub consent : Bool

pub record CredentialSelection : Type 0 where
  pub credential_id : String
  pub credential_query_id : String
  pub disclosed_claims : List String

pub record ConsentAction : Type 0 where
  pub selections : List CredentialSelection
  pub consent : Bool
