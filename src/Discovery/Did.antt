-- ===== src/Discovery/Did.antt =====
-- pkg/wmp/discovery.go: the two ways to discover a did:web identifier.
use Prim.Native.String.{[], ◌∷◌}
use text.Mathlib.Text.{starts_with}
use go_wmp.Prelude.{
  Bool, ◌≡◌, refl, ◌∙◌, sym, ap, String, true, Option, arith, Bool-cases, inl, inr,
}
use go_wmp.Types.Discovery.{WellKnownConfig}
use go_wmp.Discovery.{
  checked_domain, has_char, contains_any, is_valid_did_web_domain, parse_did_web, extract_domain,
  domain_of, Client, refused, found, no_domain, Refusal, fetch_config, well_known,
  discover_config_for_identifier, discover_config_for_did,
}
use go_wmp.Discovery.Urls.{IsClean, discovery_stays_on_domain}

same_forbidden : (s : String) → contains_any s "/\\?#@" ≡ contains_any s "/?#@\\"
unfolding contains_any has_char
same_forbidden [] = refl
same_forbidden (c ∷ s) = ground (arith, same_forbidden s)

valid-IsClean : (domain : String) → is_valid_did_web_domain domain ≡ true → IsClean domain
unfolding is_valid_did_web_domain
valid-IsClean domain valid = let same = same_forbidden domain in ground arith

checked_valid :
    (first rest domain path : String)
    → checked_domain first rest ≡ found (domain, path)
    → is_valid_did_web_domain domain ≡ true
unfolding checked_domain
checked_valid first rest domain path e = elim (Bool-cases (is_valid_did_web_domain first)) [
  | inl valid ↦
      let same : first ≡ domain = ap domain_of (rw (checked_domain, valid) at e) in rw same at valid
  | inr invalid ↦ absurd (cc (rw (checked_domain, invalid) at e))
]

parsed_valid :
    (did domain path : String)
    → parse_did_web did ≡ found (domain, path)
    → (starts_with did "did:web:" ≡ true) × (is_valid_did_web_domain domain ≡ true)
unfolding parse_did_web
parsed_valid did domain path e = elim (Bool-cases (starts_with did "did:web:")) [
  | inl is_did ↦ (is_did, checked_valid _ _ domain path (rw (parse_did_web, is_did) at e))
  | inr other ↦ absurd (cc (rw (parse_did_web, other) at e))
]

extract_did :
    (did : String)
    → starts_with did "did:web:" ≡ true
    → extract_domain did ≡ domain_of (parse_did_web did)
unfolding extract_domain parse_did_web
extract_did did is_did = rw is_did refl

module _ {W : Type 0} (accepts : String → Bool) (decode : String → Option WellKnownConfig)
    (default_client : Client W) where
  found_request :
      (did domain path : String) (client : Option (Client W)) (w : W)
      → parse_did_web did ≡ found (domain, path)
      → discover_config_for_did accepts decode default_client did client w
        ≡ fetch_config accepts decode default_client (well_known domain) client w
  unfolding discover_config_for_did
  found_request did domain path client w e = rw (e, discover_config_for_did) refl

  refused_request :
      (did : String) (e : Refusal) (client : Option (Client W)) (w : W)
      → parse_did_web did ≡ refused e
      → discover_config_for_did accepts decode default_client did client w ≡ (refused e, w)
  unfolding discover_config_for_did
  refused_request did e client w bad = rw (bad, discover_config_for_did) refl

  refused_identifier :
      (did : String) (client : Option (Client W)) (w : W)
      → extract_domain did ≡ ""
      → discover_config_for_identifier accepts decode default_client did client w
        ≡ (refused no_domain, w)
  unfolding discover_config_for_identifier
  refused_identifier did client w same = rw (same, discover_config_for_identifier) refl

  -- A did:web identifier that parses to a domain leads DiscoverConfigForDID and
  -- DiscoverConfigForIdentifier to the same answer and the same requests, those of the domain's
  -- well-known document; where it does not parse, both make no request, and answer with the parser's
  -- error and with the missing domain.
  pub did_discovery_agrees :
      (did : String) (client : Option (Client W)) (w : W)
      → starts_with did "did:web:" ≡ true
      → let by_did = discover_config_for_did accepts decode default_client did client w in
        let by_identifier =
          discover_config_for_identifier accepts decode default_client did client w in
        ((domain path : String)
          → parse_did_web did ≡ found (domain, path)
          → (by_did ≡ by_identifier)
            × (by_did ≡ fetch_config accepts decode default_client (well_known domain) client w))
        × ((e : Refusal)
            → parse_did_web did ≡ refused e
            → (by_did ≡ (refused e, w)) × (by_identifier ≡ (refused no_domain, w)))
  did_discovery_agrees did client w is_did = (
    λ domain path e.
        let same : extract_domain did ≡ domain = extract_did did is_did ∙ rw e refl in
        let clean : IsClean domain = valid-IsClean domain (parsed_valid did domain path e).1 in
        let here =
          (discovery_stays_on_domain accepts decode default_client did client w).0
            (rw same clean) in
        let fetched = found_request did domain path client w e in
        (fetched ∙ sym (rw same at here.0), fetched),
    λ e bad.
        let same : extract_domain did ≡ "" = extract_did did is_did ∙ rw bad refl in
        (refused_request did e client w bad, refused_identifier did client w same),
  )
