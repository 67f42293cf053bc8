-- ===== src/Openid4x/Validation.antt =====
-- pkg/wmp/openid4x/openid4x.go: the checks on formats, on the parameters of a start and on actions.
use Prim.Native.String
use go_wmp.Prelude.{
  String, Bool, true, false, not, ◌&&◌, Option, none, some, str_eq, if◌then◌else◌, is_some,
}
use go_wmp.Prelude.Maps.{Map, lookup}
use go_wmp.Errors.{err_invalid_params}
use go_wmp.Types.Json.{Value}
use go_wmp.Jsonrpc.{Codec, RpcError, new_rpc_error, reason}
use go_wmp.Openid4x.Names.{
  flow_type_oid4vci, flow_type_oid4vp, format_vc_sd_jwt, format_dc_sd_jwt, format_mso_mdoc,
  format_jwt_vc_json, action_accept_offer, action_provide_tx_code, action_authorize,
  action_select_credentials, action_cancel,
}

unfoldable pub is_valid_format : String → Bool
is_valid_format format =
    if str_eq format format_vc_sd_jwt
    then true
    else if str_eq format format_dc_sd_jwt
    then true
    else if str_eq format format_mso_mdoc
    then true
    else str_eq format format_jwt_vc_json

-- `_, ok := params[key]`
abbrev pub has : String → Map Value → Bool
has key params = is_some (lookup key params)

-- `none` is a valid text.
unfoldable pub validate_vci_start_params : Codec → Map Value → Option RpcError
validate_vci_start_params c params =
    if has "auth_code" params
    then none
    else if not (has "credential_offer" params)
        && (not (has "credential_offer_uri" params) && not (has "offer" params))
    then some (
        new_rpc_error err_invalid_params
          (reason c "OID4VCI flow requires credential_offer, credential_offer_uri, or offer"))
    else none

unfoldable pub validate_vp_start_params : Codec → Map Value → Option RpcError
validate_vp_start_params c params =
    if not (has "request_uri" params)
      && (not (has "request_uri_ref" params)
          && (not (has "presentation_definition" params) && not (has "dcql_query" params)))
    then some (
        new_rpc_error err_invalid_params (
          reason c
            "OID4VP flow requires request_uri, request_uri_ref, presentation_definition, or dcql_query"))
    else none

-- The first switch of `ValidateAction`.
unfoldable pub is_flow_action : String → String → Bool
is_flow_action flow_type action =
    if str_eq flow_type flow_type_oid4vci
    then (if str_eq action action_accept_offer
        then true
        else if str_eq action action_provide_tx_code
        then true
        else if str_eq action action_authorize
        then true
        else str_eq action action_cancel)
    else if str_eq flow_type flow_type_oid4vp
    then (if str_eq action action_select_credentials then true else str_eq action action_cancel)
    else false

-- The second.
unfoldable pub is_engine_action : String → Bool
is_engine_action action =
    if str_eq action "sign_response"
    then true
    else if str_eq action "match_response"
    then true
    else if str_eq action "trust_result"
    then true
    else if str_eq action "consent"
    then true
    else if str_eq action "select_credential"
    then true
    else if str_eq action "authorization_complete"
    then true
    else if str_eq action "provide_pin"
    then true
    else if str_eq action "credentials_matched"
    then true
    else str_eq action "decline"

unfoldable pub validate_action : Codec → String → String → Option RpcError
validate_action c flow_type action =
    if is_flow_action flow_type action
    then none
    else if is_engine_action action
    then none
    else some (
        new_rpc_error err_invalid_params (
          reason c (
            String.◌++◌ "unknown action for flow type "
              (String.◌++◌ flow_type (String.◌++◌ ": " action)))))
