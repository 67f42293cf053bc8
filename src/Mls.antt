-- ===== src/Mls.antt =====
-- pkg/wmp/mls/mls.go: the handler interface of MLS, its base, and the profile that dispatches to it.
-- `json.Unmarshal` at the structs is the record `MlsStructs`. What a method returns enters a `Reply` as a
-- value of the profile's own; `MlsStructs` has the injections.
pub mod Dispatch
pub mod Noop
pub mod Advances
pub mod Groups
pub mod Members
pub mod Provider
mod Examples
use go_wmp.Prelude.{String, Option, none, some, List, [], ◌∷◌, str_eq, if◌then◌else◌}
use go_wmp.Prelude.Int.{ℤ, pos}
use go_wmp.Errors.{err_capability_not_supported, err_invalid_params, err_method_not_found}
use go_wmp.Types.Json.{Raw, Value}
use go_wmp.Types.Mls.{
  GroupCreateParams, GroupCreateResult, GroupJoinParams, GroupJoinResult, GroupAddParams,
  GroupAddResult, GroupRemoveParams, GroupRemoveResult, GroupUpdateParams, MessageFetchParams,
  MessageFetchResult,
}
use go_wmp.Jsonrpc.{new_rpc_error, unmarshal}
use go_wmp.Context.{Context}
use go_wmp.Profile.{rpc, Reply, custom, Returned, MethodHandler, Profile}

abbrev pub method_group_create : String
method_group_create = "wmp.mls.group.create"

abbrev pub method_group_join : String
method_group_join = "wmp.mls.group.join"

abbrev pub method_group_add : String
method_group_add = "wmp.mls.group.add"

abbrev pub method_group_remove : String
method_group_remove = "wmp.mls.group.remove"

abbrev pub method_group_update : String
method_group_update = "wmp.mls.group.update"

abbrev pub method_message_fetch : String
method_message_fetch = "wmp.message.fetch"

abbrev pub cipher_suite_x25519_aes128_gcm : ℤ
cipher_suite_x25519_aes128_gcm = pos 1

abbrev pub cipher_suite_p256_aes128_gcm : ℤ
cipher_suite_p256_aes128_gcm = pos 2

abbrev pub credential_type_basic : String
credential_type_basic = "basic"

abbrev pub credential_type_x509 : String
credential_type_x509 = "x509"

pub record MlsHandler (W : Type 0) : Type 0 where
  pub group_create : Context → GroupCreateParams → W → Returned GroupCreateResult × W
  pub group_join : Context → GroupJoinParams → W → Returned GroupJoinResult × W
  pub group_add : Context → GroupAddParams → W → Returned GroupAddResult × W
  pub group_remove : Context → GroupRemoveParams → W → Returned GroupRemoveResult × W
  pub group_update : Context → GroupUpdateParams → W → W
  pub message_fetch : Context → MessageFetchParams → W → Returned MessageFetchResult × W

-- `return nil, wmp.NewRPCError(wmp.ErrCapabilityNotSupported, data)`
abbrev pub not_supported : {A : Type 0} → Raw → Returned A
not_supported raw = (none, some (rpc (new_rpc_error err_capability_not_supported raw)))

unfoldable pub base_mls_handler : {W : Type 0} → MlsHandler W
base_mls_handler = record {
  group_create = λ ctx ps w. (not_supported (some "{\"message\":\"MLS not supported\"}"), w);
  group_join = λ ctx ps w. (not_supported none, w);
  group_add = λ ctx ps w. (not_supported none, w);
  group_remove = λ ctx ps w. (not_supported none, w);
  group_update = λ ctx ps w. w;
  message_fetch = λ ctx ps w. (not_supported none, w);
}

-- encoding/json at the structs of this package, and a result, nil or not, as it stands in an
-- `interface{}`.
pub record MlsStructs : Type 0 where
  pub group_create : String → Option GroupCreateParams
  pub group_join : String → Option GroupJoinParams
  pub group_add : String → Option GroupAddParams
  pub group_remove : String → Option GroupRemoveParams
  pub group_update : String → Option GroupUpdateParams
  pub message_fetch : String → Option MessageFetchParams
  pub group_created : Option GroupCreateResult → Value
  pub group_joined : Option GroupJoinResult → Value
  pub group_added : Option GroupAddResult → Value
  pub group_removed : Option GroupRemoveResult → Value
  pub message_fetched : Option MessageFetchResult → Value

unfoldable pub methods : List String
methods =
    method_group_create ∷ method_group_join ∷ method_group_add ∷ method_group_remove
    ∷ method_group_update ∷ method_message_fetch ∷ []

module _ {W : Type 0} where
  -- One case of the switch: the parameters are decoded, or an error is returned.
  abbrev pub decoded :
      {A : Type 0} → (String → Option A) → Raw → W → (A → Returned Reply × W) → Returned Reply × W
  decoded decode params w call = elim (unmarshal decode params) [
    | none ↦ ((none, some (rpc (new_rpc_error err_invalid_params none))), w)
    | some ps ↦ call ps
  ]

  -- `return f(ctx, &ps)`
  abbrev pub wrapped : {A : Type 0} → (Option A → Value) → Returned A × W → Returned Reply × W
  wrapped wrap r = ((some (custom (wrap r.0.0)), r.0.1), r.1)

  unfoldable pub handle_method :
      MlsStructs → MlsHandler W → Context → String → Raw → W → Returned Reply × W
  handle_method d h ctx method params w =
      if str_eq method method_group_create
      then decoded d.group_create params w (λ ps. wrapped d.group_created (h.group_create ctx ps w))
      else if str_eq method method_group_join
      then decoded d.group_join params w (λ ps. wrapped d.group_joined (h.group_join ctx ps w))
      else if str_eq method method_group_add
      then decoded d.group_add params w (λ ps. wrapped d.group_added (h.group_add ctx ps w))
      else if str_eq method method_group_remove
      then decoded d.group_remove params w (λ ps. wrapped d.group_removed (h.group_remove ctx ps w))
      else if str_eq method method_group_update
      then decoded d.group_update params w (λ ps. ((none, none), h.group_update ctx ps w))
      else if str_eq method method_message_fetch
      then decoded d.message_fetch params w
          (λ ps. wrapped d.message_fetched (h.message_fetch ctx ps w))
      else ((none, some (rpc (new_rpc_error err_method_not_found none))), w)

  -- `NewProfile`, as the value that a peer's registry gets.
  unfoldable pub new_profile : MlsStructs → MlsHandler W → Profile W
  unfolding handle_method methods
  new_profile d h = record {
    name = "mls";
    capabilities = "mls" ∷ [];
    init = λ w. (none, w);
    flow_handler = none;
    method_handler = some (record { methods = methods; handle_method = handle_method d h });
    resolve_handler = none;
    session_hook = none;
    identifier_resolver = none;
  }
