-- ===== src/Discovery/Examples.antt =====
-- Tests of discovery.

use go_wmp.Prelude.{Bool, true, ◌≡◌, refl, String, Option, none, some, List, [], ◌∷◌}
use go_wmp.Types.Discovery.{WellKnownConfig}
use go_wmp.Discovery.{
  invalid_did_web_domain, Client, Refusal, refused, found, response, extract_domain, parse_did_web,
  well_known, fetch_config, discover_config_for_identifier, discover_config_for_did,
}
use go_wmp.Discovery.Urls.{discovery_stays_on_domain}
use go_wmp.Discovery.Did.{did_discovery_agrees}

-- Writes the URL down, and answers with an empty document.
abbrev recorder : Client (List String)
recorder = λ url w. (response 200 (λ n. some "{}"), url ∷ w)

abbrev accepts : String → Bool
accepts url = true

abbrev decode : String → Option WellKnownConfig
decode = λ s. none

-- A test: the port is unescaped, and the other parts are the path.
did_with_path : parse_did_web "did:web:a.com%3A80:u:v" ≡ found ("a.com:80", "u/v")
unfolding parse_did_web go_wmp.Discovery.checked_domain go_wmp.Discovery.is_valid_did_web_domain
did_with_path = refl

domains :
    (extract_domain "https://a.com/x?y" ≡ "a.com")
    × (extract_domain "x509:san:dns:b.org" ≡ "b.org")
    × (extract_domain "did:web:a@b" ≡ "")
unfolding extract_domain go_wmp.Discovery.checked_domain go_wmp.Discovery.is_valid_did_web_domain
domains = (refl, refl, refl)

discovery_stays_on_domain_example :
    (discover_config_for_identifier accepts decode recorder "https://a.com/x" none []
      ≡ fetch_config accepts decode recorder (well_known "a.com") none [])
    × (extract_domain (well_known "a.com") ≡ "a.com")
unfolding extract_domain go_wmp.Discovery.contains_any
discovery_stays_on_domain_example =
    (discovery_stays_on_domain accepts decode recorder "https://a.com/x" none []).0 (refl, refl)

did_discovery_agrees_example :
    let by_did = discover_config_for_did accepts decode recorder "did:web:a.com:u" none [] in
    let by_identifier =
      discover_config_for_identifier accepts decode recorder "did:web:a.com:u" none [] in
    let bad = discover_config_for_did accepts decode recorder "did:web:a@b" none [] in
    ((by_did ≡ by_identifier)
      × (by_did ≡ fetch_config accepts decode recorder (well_known "a.com") none []))
    × (bad ≡ (refused (invalid_did_web_domain "a@b"), []))
unfolding parse_did_web go_wmp.Discovery.checked_domain go_wmp.Discovery.is_valid_did_web_domain
did_discovery_agrees_example = (
  (did_discovery_agrees accepts decode recorder "did:web:a.com:u" none [] refl).0 "a.com" "u" refl,
  ((did_discovery_agrees accepts decode recorder "did:web:a@b" none [] refl).1
      (invalid_did_web_domain "a@b") refl).0,
)
