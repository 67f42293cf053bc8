-- ===== src/Openid4x/Names.antt =====
-- pkg/wmp/openid4x/openid4x.go: the strings of the protocol, and the tests on formats and actions.
use go_wmp.Prelude.{String, List, [], ◌∷◌}

abbrev pub flow_type_oid4vci : String
flow_type_oid4vci = "oid4vci"

abbrev pub flow_type_oid4vp : String
flow_type_oid4vp = "oid4vp"

abbrev pub step_parsing_offer : String
step_parsing_offer = "parsing_offer"

abbrev pub step_resolving_metadata : String
step_resolving_metadata = "resolving_metadata"

abbrev pub step_metadata_fetched : String
step_metadata_fetched = "metadata_fetched"

abbrev pub step_evaluating_trust : String
step_evaluating_trust = "evaluating_trust"

abbrev pub step_trust_evaluated : String
step_trust_evaluated = "trust_evaluated"

abbrev pub step_awaiting_offer_acceptance : String
step_awaiting_offer_acceptance = "awaiting_offer_acceptance"

abbrev pub step_awaiting_tx_code : String
step_awaiting_tx_code = "awaiting_tx_code"

abbrev pub step_authorization_pending : String
step_authorization_pending = "authorization_pending"

abbrev pub step_generating_proof : String
step_generating_proof = "generating_proof"

abbrev pub step_requesting_credential : String
step_requesting_credential = "requesting_credential"

abbrev pub step_credential_received : String
step_credential_received = "credential_received"

abbrev pub step_parsing_request : String
step_parsing_request = "parsing_request"

abbrev pub step_request_parsed : String
step_request_parsed = "request_parsed"

abbrev pub step_vp_evaluating_trust : String
step_vp_evaluating_trust = "evaluating_trust"

abbrev pub step_vp_trust_evaluated : String
step_vp_trust_evaluated = "trust_evaluated"

abbrev pub step_matching_credentials : String
step_matching_credentials = "matching_credentials"

abbrev pub step_awaiting_consent : String
step_awaiting_consent = "awaiting_consent"

abbrev pub step_generating_presentation : String
step_generating_presentation = "generating_presentation"

abbrev pub action_accept_offer : String
action_accept_offer = "accept_offer"

abbrev pub action_provide_tx_code : String
action_provide_tx_code = "provide_tx_code"

abbrev pub action_authorize : String
action_authorize = "authorize"

abbrev pub action_select_credentials : String
action_select_credentials = "select_credentials"

abbrev pub action_cancel : String
action_cancel = "cancel"

abbrev pub format_vc_sd_jwt : String
format_vc_sd_jwt = "vc+sd-jwt"

abbrev pub format_dc_sd_jwt : String
format_dc_sd_jwt = "dc+sd-jwt"

abbrev pub format_mso_mdoc : String
format_mso_mdoc = "mso_mdoc"

abbrev pub format_jwt_vc_json : String
format_jwt_vc_json = "jwt_vc_json"

abbrev pub grant_authorization_code : String
grant_authorization_code = "authorization_code"

abbrev pub grant_pre_authorized_code : String
grant_pre_authorized_code = "pre-authorized_code"

abbrev pub response_mode_direct_post : String
response_mode_direct_post = "direct_post"

abbrev pub response_mode_direct_post_jwt : String
response_mode_direct_post_jwt = "direct_post.jwt"

abbrev pub response_mode_dc_api : String
response_mode_dc_api = "dc_api"

abbrev pub response_mode_dc_api_jwt : String
response_mode_dc_api_jwt = "dc_api.jwt"

unfoldable pub all_formats : List String
all_formats = format_vc_sd_jwt ∷ format_dc_sd_jwt ∷ format_mso_mdoc ∷ format_jwt_vc_json ∷ []
