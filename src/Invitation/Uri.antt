-- ===== src/Invitation/Uri.antt =====
-- pkg/wmp/invitation.go: the URIs of invitations. encoding/base64, encoding/json and net/url are the
-- record `Encoding`; the functions of package strings that are called are defined on the characters.
use Prim.Native.Char.{code}
use Prim.Native.String.{[], ◌∷◌, ◌++◌}
use text.Mathlib.Text.{starts_with}
use go_wmp.Prelude.{String, Bool, true, Option, none, some, if◌then◌else◌, str_eq, ◌==◌}
use go_wmp.Discovery.{extract_domain}
use go_wmp.Invitation.{Invitation}

-- `none` is an error. `query_get` is `url.Parse` and `Query().Get`: of a URI, a parameter.
pub record Encoding : Type 0 where
  pub encode : String → String
  pub decode : String → Option String
  pub marshal : Invitation → Option String
  pub unmarshal : String → Option Invitation
  pub query_get : String → String → Option String

-- What the errors say.
pub data UriError : Type 0 where
  not_marshalled no_domain bad_uri missing_data missing_fragment unknown_scheme bad_data bad_json :
      UriError
  uses_ref : String → UriError

pub data Outcome {ℓ} (A : Type ℓ) : Type ℓ where
  good : A → Outcome A
  wrong : UriError → Outcome A

-- `strings.Contains`
unfoldable pub contains : String → String → Bool
contains [] t = starts_with "" t
contains (c ∷ s) t = let rest = contains s t in if starts_with (c ∷ s) t then true else rest

-- What follows the last "#": `strings.LastIndex` and the slice behind it.
unfoldable pub after_last_hash : String → Option String
after_last_hash [] = none
after_last_hash (c ∷ s) = elim (after_last_hash s) [
  | some rest ↦ some rest
  | none ↦ if code c == 35 then some s else none
]

module _ (e : Encoding) where
  -- `SigningPayload`: the invitation is marshalled without its signature.
  unfoldable pub signing_payload : Invitation → Option String
  signing_payload inv = e.marshal (record inv { signature = "" })

  unfoldable pub uri : Invitation → Outcome String
  uri inv = elim (e.marshal inv) [
    | none ↦ wrong not_marshalled
    | some bytes ↦ good ("wmp://invite?data=" ++ e.encode bytes)
  ]

  unfoldable pub https_uri : Invitation → Outcome String
  https_uri inv =
      let domain = extract_domain inv.provider in
      if str_eq domain "" then wrong no_domain else elim (e.marshal inv) [
        | none ↦ wrong not_marshalled
        | some bytes ↦ good ("https://" ++ domain ++ "/wmp/invite#" ++ e.encode bytes)
      ]

  unfoldable pub parse_invitation_json : String → Outcome Invitation
  parse_invitation_json bytes = elim (e.unmarshal bytes) [
    | none ↦ wrong bad_json
    | some inv ↦ good inv
  ]

  -- The end of `ParseInvitationURI`.
  unfoldable pub decode_invitation : String → Outcome Invitation
  unfolding parse_invitation_json
  decode_invitation encoded = elim (e.decode encoded) [
    | none ↦ wrong bad_data
    | some bytes ↦ parse_invitation_json bytes
  ]

  -- The case of a wmp URI.
  unfoldable pub parse_wmp_uri : String → Outcome Invitation
  unfolding decode_invitation
  parse_wmp_uri text = elim (e.query_get text "data") [
    | none ↦ wrong bad_uri
    | some encoded ↦
        if str_eq encoded ""
        then elim (e.query_get text "ref") [
          | none ↦ wrong missing_data
          | some ref ↦ if str_eq ref "" then wrong missing_data else wrong (uses_ref ref)
        ]
        else decode_invitation encoded
  ]

  -- The case of an HTTPS URI.
  unfoldable pub parse_https_uri : String → Outcome Invitation
  unfolding decode_invitation after_last_hash
  parse_https_uri text = elim (after_last_hash text) [
    | none ↦ wrong missing_fragment
    | some encoded ↦ if str_eq encoded "" then wrong missing_fragment else decode_invitation encoded
  ]

  unfoldable pub parse_invitation_uri : String → Outcome Invitation
  unfolding parse_wmp_uri parse_https_uri contains
  parse_invitation_uri text =
      if starts_with text "wmp://invite"
      then parse_wmp_uri text
      else if contains text "/wmp/invite#"
      then parse_https_uri text
      else wrong unknown_scheme
