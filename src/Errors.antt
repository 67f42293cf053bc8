-- ===== src/Errors.antt =====
-- pkg/wmp/errors.go: the error codes and their messages.
use go_wmp.Prelude.{String, List, [], ◌∷◌, if◌then◌else◌}
use go_wmp.Prelude.Int.{ℤ, negsuc, int_eq}

-- `negsuc n` is -(n + 1).
abbrev pub err_session_not_found : ℤ
err_session_not_found = negsuc 30999

abbrev pub err_session_expired : ℤ
err_session_expired = negsuc 31000

abbrev pub err_not_authorized : ℤ
err_not_authorized = negsuc 31001

abbrev pub err_encryption_required : ℤ
err_encryption_required = negsuc 31002

abbrev pub err_mls_error : ℤ
err_mls_error = negsuc 31003

abbrev pub err_capability_not_supported : ℤ
err_capability_not_supported = negsuc 31004

abbrev pub err_flow_error : ℤ
err_flow_error = negsuc 31005

abbrev pub err_rate_limited : ℤ
err_rate_limited = negsuc 31006

abbrev pub err_participant_not_found : ℤ
err_participant_not_found = negsuc 31007

abbrev pub err_evidence_required : ℤ
err_evidence_required = negsuc 31008

abbrev pub err_signature_invalid : ℤ
err_signature_invalid = negsuc 31009

abbrev pub err_timestamp_invalid : ℤ
err_timestamp_invalid = negsuc 31010

abbrev pub err_identity_assertion_invalid : ℤ
err_identity_assertion_invalid = negsuc 31011

abbrev pub err_version_not_supported : ℤ
err_version_not_supported = negsuc 31012

abbrev pub err_queue_full : ℤ
err_queue_full = negsuc 31013

abbrev pub err_delegation_invalid : ℤ
err_delegation_invalid = negsuc 31014

abbrev pub err_consignment_mode_unsupported : ℤ
err_consignment_mode_unsupported = negsuc 31015

abbrev pub err_assurance_level_unsupported : ℤ
err_assurance_level_unsupported = negsuc 31016

abbrev pub err_policy_unsupported : ℤ
err_policy_unsupported = negsuc 31017

abbrev pub err_parse_error : ℤ
err_parse_error = negsuc 32699

abbrev pub err_invalid_request : ℤ
err_invalid_request = negsuc 32599

abbrev pub err_method_not_found : ℤ
err_method_not_found = negsuc 32600

abbrev pub err_invalid_params : ℤ
err_invalid_params = negsuc 32601

abbrev pub err_internal_error : ℤ
err_internal_error = negsuc 32602

unfoldable pub error_message : ℤ → String
error_message code =
    if int_eq code err_session_not_found
    then "Session not found"
    else if int_eq code err_session_expired
    then "Session expired"
    else if int_eq code err_not_authorized
    then "Not authorized"
    else if int_eq code err_encryption_required
    then "Encryption required"
    else if int_eq code err_mls_error
    then "MLS error"
    else if int_eq code err_capability_not_supported
    then "Capability not supported"
    else if int_eq code err_flow_error
    then "Flow error"
    else if int_eq code err_rate_limited
    then "Rate limited"
    else if int_eq code err_participant_not_found
    then "Participant not found"
    else if int_eq code err_evidence_required
    then "Evidence required"
    else if int_eq code err_signature_invalid
    then "Signature invalid"
    else if int_eq code err_timestamp_invalid
    then "Timestamp invalid"
    else if int_eq code err_identity_assertion_invalid
    then "Identity assertion invalid"
    else if int_eq code err_version_not_supported
    then "Version not supported"
    else if int_eq code err_queue_full
    then "Queue full"
    else if int_eq code err_delegation_invalid
    then "Delegation invalid"
    else if int_eq code err_consignment_mode_unsupported
    then "Consignment mode unsupported"
    else if int_eq code err_assurance_level_unsupported
    then "Assurance level unsupported"
    else if int_eq code err_policy_unsupported
    then "Policy unsupported"
    else if int_eq code err_parse_error
    then "Parse error"
    else if int_eq code err_invalid_request
    then "Invalid Request"
    else if int_eq code err_method_not_found
    then "Method not found"
    else if int_eq code err_invalid_params
    then "Invalid params"
    else if int_eq code err_internal_error
    then "Internal error"
    else "Unknown error"

-- The codes that the switch of `ErrorMessage` lists.
abbrev pub known_codes : List ℤ
known_codes =
    err_session_not_found ∷ err_session_expired ∷ err_not_authorized ∷ err_encryption_required
    ∷ err_mls_error ∷ err_capability_not_supported ∷ err_flow_error ∷ err_rate_limited
    ∷ err_participant_not_found ∷ err_evidence_required ∷ err_signature_invalid
    ∷ err_timestamp_invalid ∷ err_identity_assertion_invalid ∷ err_version_not_supported
    ∷ err_queue_full ∷ err_delegation_invalid ∷ err_consignment_mode_unsupported
    ∷ err_assurance_level_unsupported ∷ err_policy_unsupported ∷ err_parse_error
    ∷ err_invalid_request ∷ err_method_not_found ∷ err_invalid_params ∷ err_internal_error ∷ []
