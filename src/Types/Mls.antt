-- ===== src/Types/Mls.antt =====
-- pkg/wmp/mls/mls.go: the parameters and results of the MLS methods.
use go_wmp.Prelude.{String, Bool, List}
use go_wmp.Prelude.Int.{ℤ}
use go_wmp.Prelude.Maps.{Map}
use go_wmp.Types.Json.{Raw}
use go_wmp.Types.Envelope.{Metadata}

pub record GroupCreateParams : Type 0 where
  pub wmp : Metadata
  pub group_id : String
  pub cipher_suite : ℤ
  pub accepted_credential_types : List String
  pub accepted_identity_schemes : List String
  pub group_info : String
  pub welcomes : Map String

pub record GroupCreateResult : Type 0 where
  pub wmp : Metadata
  pub group_id : String
  pub epoch : ℤ

pub record GroupJoinParams : Type 0 where
  pub wmp : Metadata
  pub welcome_processed : Bool

pub record GroupJoinResult : Type 0 where
  pub wmp : Metadata
  pub group_id : String
  pub epoch : ℤ

pub record GroupAddParams : Type 0 where
  pub wmp : Metadata
  pub participant : String
  pub commit : String
  pub welcome : String

pub record GroupAddResult : Type 0 where
  pub wmp : Metadata
  pub epoch : ℤ

pub record GroupRemoveParams : Type 0 where
  pub wmp : Metadata
  pub participant : String
  pub commit : String

pub record GroupRemoveResult : Type 0 where
  pub wmp : Metadata
  pub epoch : ℤ

pub record GroupUpdateParams : Type 0 where
  pub wmp : Metadata
  pub commit : String

pub record MessageFetchParams : Type 0 where
  pub wmp : Metadata
  pub since_epoch : ℤ
  pub sessions : List String

pub record MessageFetchResult : Type 0 where
  pub wmp : Metadata
  pub messages : List Raw
  pub has_more : Bool

pub record KeyPackage : Type 0 where
  pub id : String
  pub cipher_suite : ℤ
  pub key_package : String
  pub expires : String

pub record KeyPackagesResponse : Type 0 where
  pub key_packages : List KeyPackage

pub record EncryptedEnvelope : Type 0 where
  pub wmp : Metadata
  pub ciphertext : String
