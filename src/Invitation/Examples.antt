-- ===== src/Invitation/Examples.antt =====
-- Tests of the invitation store and of the nonce check.
use go_wmp.Invitation.Nonce.{validate_twice, validate_accepts_iff}
use go_wmp.Invitation.{
  String, is_expired, refuse, Invitation, Map, lookup, memory_invitation_store,
  validate_invitation_nonce,
}
use go_wmp.Discovery.{contains_any, extract_domain}
use go_wmp.Invitation.Uri.{Encoding, good, https_uri, parse_invitation_uri}
use go_wmp.Invitation.UriRoundTrip.{IsEncodable, parse-uri}
use go_wmp.Prelude.{str_eq, if◌then◌else◌}
use go_wmp.Types.Json.{Time}
use go_wmp.Prelude.{◌≡◌, refl, none, some, [], ◌∷◌, ◌↔◌, ◌≢◌}

abbrev invitation_at : Time → Invitation
invitation_at expiry = record {
  provider = "p";
  sender = "alice";
  nonce = "n1";
  relay = "";
  purpose = "";
  session_id = "";
  label = "";
  capabilities = [];
  expires_at = expiry;
  signature = "";
}

abbrev one_invitation : Map Invitation
one_invitation = ("n1", invitation_at 50) ∷ []

named : ◌≢◌ {A = String} "n1" ""
named h = cc

validate_accepts_iff_example :
    (validate_invitation_nonce memory_invitation_store none 10 20 "n1" one_invitation).0.invitation
    ≡ some (invitation_at 50)
unfolding go_wmp.Prelude.Maps.lookup is_expired
validate_accepts_iff_example =
    (validate_accepts_iff none 10 20 "n1" one_invitation (invitation_at 50)).1
      (named, refl, refl, refl, refl)

validate_twice_example :
    let after =
      (validate_invitation_nonce memory_invitation_store none 10 10 "n1" one_invitation).1 in
    validate_invitation_nonce memory_invitation_store none 20 20 "n1" after
    ≡ (refuse "invalid_invitation_nonce", after)
validate_twice_example = validate_twice none 10 10 20 20 "n1" one_invitation named

-- An encoding for the one invitation.
abbrev encoding : Encoding
encoding = record {
  encode = λ s. s;
  decode = λ s. some s;
  marshal = λ inv. some "e30";
  unmarshal = λ s. some (record (invitation_at 50) { provider = "https://a.com" });
  query_get = λ text name. if str_eq name "data" then some "e30" else none;
}

abbrev hosted : Invitation
hosted = record (invitation_at 50) { provider = "https://a.com" }

hosted-IsEncodable : IsEncodable encoding hosted
unfolding contains_any
hosted-IsEncodable = record {
  bytes = "e30";
  marshalled = refl;
  unmarshalled = refl;
  decoded = refl;
  not_empty = refl;
  no_hash = refl;
  queried = refl;
}

parse-uri_example :
    (text : String) × (https_uri encoding hosted ≡ good text)
    × (parse_invitation_uri encoding text ≡ good hosted)
unfolding extract_domain
parse-uri_example = (parse-uri encoding hosted hosted-IsEncodable).1 refl
