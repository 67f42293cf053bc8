-- ===== src/Discovery/Urls.antt =====
-- pkg/wmp/discovery.go: which requests are made for an identifier.
use Prim.Native.Char.{Char, char}
use Prim.Native.String.{[], ◌∷◌, ◌++◌}
use text.Mathlib.Text.{starts_with}
use text.Mathlib.TextLemmas.{cons-append, nil-append}
use text.Mathlib.TextPositions.{
  slice-append_left, slice-append_right, starts_with-append, len-append,
}
use go_wmp.Prelude.{
  Bool, ◌≡◌, refl, ◌∙◌, ap, String, true, false, Option, none, some, arith, str_eq, Bool-cases, inl,
  inr,
}
use go_wmp.Types.Discovery.{WellKnownConfig}
use go_wmp.Discovery.{
  invalid_domain, empty_domain, found, no_domain, has_char, contains_any, before_any, after_prefix,
  well_known, extract_domain, Client, refused, Refusal, fetch_config, build_well_known_url,
  discover_config_with_client, discover_config, discover_config_for_identifier,
}

forbidden_ends : (c : Char) → has_char c "/?#@\\" ≡ false → has_char c "/?#" ≡ false
unfolding has_char
forbidden_ends c h = ground arith

contains_any_cons :
    (c : Char) (s chars : String)
    → contains_any (c ∷ s) chars ≡ false
    → (has_char c chars ≡ false) × (contains_any s chars ≡ false)
unfolding contains_any
contains_any_cons c s chars h = ground arith

before_any_cons :
    (c : Char) (s chars : String)
    → has_char c chars ≡ false
    → before_any (c ∷ s) chars ≡ c ∷ before_any s chars
unfolding before_any
before_any_cons c s chars h = rw h refl

before_any_slash : (rest : String) → before_any ("/" ++ rest) "/?#" ≡ ""
unfolding before_any has_char
before_any_slash rest = rw (cons-append (char 47 tt) "" rest) refl

before_any-append :
    (domain rest : String)
    → contains_any domain "/?#@\\" ≡ false
    → before_any (domain ++ ("/" ++ rest)) "/?#" ≡ domain
before_any-append [] rest clean = rw (nil-append ("/" ++ rest)) (before_any_slash rest)
before_any-append (c ∷ s) rest clean =
    let (first, others) = contains_any_cons c s "/?#@\\" clean in
    rw (cons-append c s ("/" ++ rest)) (
      before_any_cons c (s ++ ("/" ++ rest)) "/?#" (forbidden_ends c first)
      ∙ ap (λ t. c ∷ t) (before_any-append s rest others))

after_https : (rest : String) → after_prefix "https://" ("https://" ++ rest) ≡ rest
after_https rest = rw (len-append "https://" rest) (slice-append_right "https://" rest)

no_did : (rest : String) → starts_with ("https://" ++ rest) "did:web:" ≡ false
no_did rest = rw (slice-append_left "https://" rest) refl

extract_https : (rest : String) → extract_domain ("https://" ++ rest) ≡ before_any rest "/?#"
unfolding extract_domain
extract_https rest =
    rw (no_did rest, starts_with-append "https://" rest)
      (ap (λ r. before_any r "/?#") (after_https rest))

-- The domain of the URL that is built for a domain is that domain.
extract_domain-well_known :
    (domain : String)
    → contains_any domain "/?#@\\" ≡ false
    → extract_domain (well_known domain) ≡ domain
extract_domain-well_known domain clean =
    extract_https (domain ++ "/.well-known/wmp-configuration")
    ∙ before_any-append domain ".well-known/wmp-configuration" clean

-- A domain that may stand in a URL.
abbrev pub IsClean : String → Type 0
IsClean domain = (str_eq domain "" ≡ false) × (contains_any domain "/?#@\\" ≡ false)

built_clean :
    (domain : String) → IsClean domain → build_well_known_url domain ≡ found (well_known domain)
unfolding build_well_known_url
built_clean domain (named, clean) = rw (named, clean, build_well_known_url) refl

built_unclean :
    (domain : String)
    → contains_any domain "/?#@\\" ≡ true
    → (e : Refusal) × (build_well_known_url domain ≡ refused e)
unfolding build_well_known_url
built_unclean domain unclean = elim (Bool-cases (str_eq domain "")) [
  | inl empty ↦ (empty_domain, rw (empty, build_well_known_url) refl)
  | inr named ↦ (invalid_domain domain, rw (named, unclean, build_well_known_url) refl)
]

module _ {W : Type 0} (accepts : String → Bool) (decode : String → Option WellKnownConfig)
    (default_client : Client W) where
  discover_clean :
      (domain : String) (client : Option (Client W)) (w : W)
      → IsClean domain
      → discover_config_with_client accepts decode default_client domain client w
        ≡ fetch_config accepts decode default_client (well_known domain) client w
  unfolding discover_config_with_client
  discover_clean domain client w clean =
      rw (built_clean domain clean, discover_config_with_client) refl

  discover_unclean :
      (domain : String) (client : Option (Client W)) (w : W)
      → contains_any domain "/?#@\\" ≡ true
      → (e : Refusal) × (discover_config_with_client accepts decode default_client domain client w
          ≡ (refused e, w))
  unfolding discover_config_with_client
  discover_unclean domain client w unclean =
      let (e, bad) = built_unclean domain unclean in (e, rw (bad, discover_config_with_client) refl)

  -- `DiscoverConfigForIdentifier`, with any client: a nil client is the default one.
  for_domain :
      (identifier : String) (client : Option (Client W)) (w : W)
      → str_eq (extract_domain identifier) "" ≡ false
      → discover_config_for_identifier accepts decode default_client identifier client w
        ≡ discover_config_with_client accepts decode default_client
            (extract_domain identifier)
            client
            w
  unfolding discover_config_for_identifier discover_config
  for_domain identifier none w named = rw named refl
  for_domain identifier (some c) w named = rw named refl

  refuses :
      (identifier : String) (client : Option (Client W)) (w : W)
      → (IsClean (extract_domain identifier) → ⊥)
      → (e : Refusal) × (discover_config_for_identifier accepts decode default_client identifier
            client w
          ≡ (refused e, w))
  unfolding discover_config_for_identifier
  refuses identifier client w unclean = elim (Bool-cases (str_eq (extract_domain identifier) "")) [
    | inl empty ↦ (no_domain, rw empty refl)
    | inr named ↦ elim (Bool-cases (contains_any (extract_domain identifier) "/?#@\\")) [
      | inr clean ↦ absurd (unclean (named, clean))
      | inl dirty ↦
          let (e, no_request) = discover_unclean (extract_domain identifier) client w dirty in
          (e, for_domain identifier client w named ∙ no_request)
    ]
  ]

  -- If the domain of an identifier is not empty and has none of the characters / ? # @ \ , fetchConfig is
  -- called once, with the URL of the well-known document of that domain, for which it makes one request
  -- if net/http accepts the URL; the domain of this URL is that of the identifier. Otherwise no request
  -- is made, and an error is the answer.
  pub discovery_stays_on_domain :
      (identifier : String) (client : Option (Client W)) (w : W)
      → let domain = extract_domain identifier in
        let r = discover_config_for_identifier accepts decode default_client identifier client w in
        (IsClean domain
          → (r ≡ fetch_config accepts decode default_client (well_known domain) client w)
            × (extract_domain (well_known domain) ≡ domain))
        × ((IsClean domain → ⊥) → (e : Refusal) × (r ≡ (refused e, w)))
  discovery_stays_on_domain identifier client w = (
    λ clean. (
      for_domain identifier client w clean.0
          ∙ discover_clean (extract_domain identifier) client w clean,
      extract_domain-well_known (extract_domain identifier) clean.1,
    ),
    λ unclean. refuses identifier client w unclean,
  )
