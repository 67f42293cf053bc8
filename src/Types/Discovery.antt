-- ===== src/Types/Discovery.antt =====
-- pkg/wmp/discovery.go: the well-known document.
use go_wmp.Prelude.{String, Bool, List, Option}
use go_wmp.Prelude.Int.{ℤ}
use go_wmp.Prelude.Maps.{Map}
use go_wmp.Types.Json.{Value}

pub record ErdsMetadata : Type 0 where
  pub consignment_modes : List String
  pub assurance_levels : List String
  pub supported_policies : List String
  pub delegation : Bool
  pub evidence_repository : String
  pub evidence_retention : String
  pub scheduled_delivery : Bool

pub record RecipientMetadata : Type 0 where
  pub accepted_content_types : List String
  pub max_message_size : ℤ
  pub consignment_preferences : String
  pub encryption_required : Bool

pub record WellKnownConfig : Type 0 where
  pub supported_versions : List String
  pub endpoints : Map String
  pub capabilities : Map Value
  pub accepted_schemes : List String
  pub security_modes : List String
  pub mls_key_packages : String
  pub relay : String
  pub identity_providers : List String
  pub trust_frameworks : List String
  pub erds : Option ErdsMetadata
  pub recipient_metadata : Option RecipientMetadata
