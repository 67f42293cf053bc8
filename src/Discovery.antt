-- ===== src/Discovery.antt =====
-- pkg/wmp/discovery.go: which URL an identifier leads to, and what is made of the answer. The HTTP
-- client is a function over the state of the network. The functions of package strings that the source
-- calls stand first; a text is a list of characters.
pub mod Urls
pub mod Did
mod Examples
use Prim.Native.Char.{Char, code}
use Prim.Native.String.{[], ◌∷◌, ◌++◌, len, slice}
use text.Mathlib.Text.{starts_with}
use go_wmp.Prelude.{
  ℕ, zero, suc, ◌-◌, String, Bool, true, false, not, Option, none, some, if◌then◌else◌, str_eq,
  ◌==◌, ◌&&◌, List,
}
use go_wmp.Types.Discovery.{WellKnownConfig}

unfoldable pub has_char : Char → String → Bool
has_char c [] = false
has_char c (d ∷ s) = let rest = has_char c s in if code c == code d then true else rest

-- `strings.ContainsAny`
unfoldable pub contains_any : String → String → Bool
unfolding has_char
contains_any [] chars = false
contains_any (c ∷ s) chars =
    let rest = contains_any s chars in if has_char c chars then true else rest

-- `if idx := strings.IndexAny(s, chars); idx >= 0 { s = s[:idx] }`
unfoldable pub before_any : String → String → String
unfolding has_char
before_any [] chars = []
before_any (c ∷ s) chars =
    let rest = before_any s chars in if has_char c chars then [] else c ∷ rest

-- `s[len(prefix):]`
abbrev pub after_prefix : String → String → String
after_prefix prefix s = slice s (len prefix) (len s)

-- `strings.ReplaceAll`, for a text that is not empty; the number counts the characters of a match that
-- are still to be skipped.
replace_from : ℕ → String → String → String → String
replace_from skip old new [] = []
replace_from zero old new (c ∷ s) =
    let skipped = replace_from (len old - 1) old new s in
    let rest = replace_from zero old new s in
    if starts_with (c ∷ s) old then new ++ skipped else c ∷ rest
replace_from (suc skip) old new (c ∷ s) = replace_from skip old new s

unfoldable pub replace_all : String → String → String → String
unfolding replace_from
replace_all old new s = replace_from zero old new s

-- `strings.Split(s, ":")`: the first part, and the others.
unfoldable pub split_colon : String → String × List String
split_colon [] = ([], List.[])
split_colon (c ∷ s) =
    let (first, others) = split_colon s in
    if code c == 58 then ([], List.◌∷◌ first others) else (c ∷ first, others)

-- `strings.Join(parts, "/")`
join_slash : List String → String
join_slash List.[] = ""
join_slash (List.◌∷◌ part List.[]) = part
join_slash (List.◌∷◌ part (List.◌∷◌ next parts)) = part ++ "/" ++ join_slash (List.◌∷◌ next parts)

-- `isValidDIDWebDomain`
unfoldable pub is_valid_did_web_domain : String → Bool
unfolding contains_any
is_valid_did_web_domain domain =
    if str_eq domain ""
    then false
    else not (contains_any domain "/\\?#@") && not (starts_with domain ".")

-- What the errors of this file say.
pub data Refusal : Type 0 where
  empty_domain no_domain not_did_web bad_request fetch_failed read_failed decode_failed : Refusal
  invalid_domain invalid_did_web_domain : String → Refusal
  bad_status : ℕ → Refusal

-- A result or an error, not both.
pub data Result {ℓ} (A : Type ℓ) : Type ℓ where
  found : A → Result A
  refused : Refusal → Result A

-- The check of `parseDIDWeb`.
unfoldable pub checked_domain : String → String → Result (String × String)
checked_domain domain path =
    if not (is_valid_did_web_domain domain)
    then refused (invalid_did_web_domain domain)
    else found (domain, path)

-- The domain and the path.
unfoldable pub parse_did_web : String → Result (String × String)
unfolding split_colon replace_all join_slash
parse_did_web did =
    let (first, others) = split_colon (after_prefix "did:web:" did) in
    if not (starts_with did "did:web:")
    then refused not_did_web
    else checked_domain (replace_all "%3A" ":" first) (join_slash others)

-- `domain, _, _ := parseDIDWeb(identifier)`: the domain is empty where there is an error.
abbrev pub domain_of : Result (String × String) → String
domain_of (found r) = r.0
domain_of (refused e) = ""

unfoldable pub extract_domain : String → String
unfolding parse_did_web before_any
extract_domain identifier =
    if starts_with identifier "did:web:"
    then domain_of (parse_did_web identifier)
    else if starts_with identifier "https://"
    then before_any (after_prefix "https://" identifier) "/?#"
    else if starts_with identifier "x509:san:dns:"
    then after_prefix "x509:san:dns:" identifier
    else if starts_with identifier "x509:san:uri:https://"
    then before_any (after_prefix "x509:san:uri:https://" identifier) "/?#"
    else ""

abbrev pub well_known : String → String
well_known domain = "https://" ++ domain ++ "/.well-known/wmp-configuration"

unfoldable pub build_well_known_url : String → Result String
unfolding contains_any
build_well_known_url domain =
    if str_eq domain ""
    then refused empty_domain
    else if contains_any domain "/?#@\\"
    then refused (invalid_domain domain)
    else found (well_known domain)

-- What the client makes of a GET request: it failed, or was answered with a status and a body, which
-- is read up to a number of bytes.
pub data Fetched : Type 0 where
  failed : Fetched
  response : ℕ → (ℕ → Option String) → Fetched

abbrev pub Client : Type 0 → Type 0
Client W = String → W → Fetched × W

-- `fetchConfig` after the request; `decode` is `json.Unmarshal`.
unfoldable pub read_config : (String → Option WellKnownConfig) → Fetched → Result WellKnownConfig
read_config decode failed = refused fetch_failed
read_config decode (response status body) =
    if not (status == 200) then refused (bad_status status) else elim (body 1048576) [
      | none ↦ refused read_failed
      | some bytes ↦ elim (decode bytes) [
        | none ↦ refused decode_failed
        | some config ↦ found config
      ]
    ]

-- `accepts` says for which URLs `http.NewRequestWithContext` makes a request.
module _ {W : Type 0} (accepts : String → Bool) (decode : String → Option WellKnownConfig)
    (default_client : Client W) where
  -- `if client == nil { client = http.DefaultClient }`
  abbrev client_or_default : Option (Client W) → Client W
  client_or_default none = default_client
  client_or_default (some client) = client

  unfoldable pub fetch_config : String → Option (Client W) → W → Result WellKnownConfig × W
  fetch_config url client w =
      if not (accepts url)
      then (refused bad_request, w)
      else let (r, w') = client_or_default client url w in (read_config decode r, w')

  unfoldable pub discover_config_with_client :
      String → Option (Client W) → W → Result WellKnownConfig × W
  unfolding build_well_known_url fetch_config
  discover_config_with_client domain client w = elim (build_well_known_url domain) [
    | refused e ↦ (refused e, w)
    | found url ↦ fetch_config url client w
  ]

  unfoldable pub discover_config : String → W → Result WellKnownConfig × W
  unfolding discover_config_with_client
  discover_config domain w = discover_config_with_client domain none w

  unfoldable pub discover_config_for_identifier :
      String → Option (Client W) → W → Result WellKnownConfig × W
  unfolding discover_config_with_client discover_config
  discover_config_for_identifier identifier client w =
      let domain = extract_domain identifier in
      if str_eq domain "" then (refused no_domain, w) else elim client [
        | none ↦ discover_config domain w
        | some c ↦ discover_config_with_client domain (some c) w
      ]

  unfoldable pub discover_config_for_did :
      String → Option (Client W) → W → Result WellKnownConfig × W
  unfolding fetch_config
  discover_config_for_did did client w = elim (parse_did_web did) [
    | refused e ↦ (refused e, w)
    | found (domain, path) ↦ fetch_config (well_known domain) client w
  ]
