-- ===== src/Invitation/UriRoundTrip.antt =====
-- pkg/wmp/invitation.go: what ParseInvitationURI makes of the URIs that URI and HTTPSURI return.
use Prim.Native.Char.{Char, char}
use Prim.Native.String.{[], ◌∷◌, ◌++◌, slice}
use text.Mathlib.Text.{starts_with}
use text.Mathlib.TextEquality.{starts_with_iff}
use text.Mathlib.TextLemmas.{cons-append, nil-append, append_assoc}
use text.Mathlib.TextPositions.{slice-append_left, starts_with-append}
use go_wmp.Prelude.{
  eq_iff, eq_iff, ◌≡◌, refl, ◌∙◌, sym, ap, subst, String, true, false, none, some, arith, str_eq,
  Bool-cases, inl, inr,
}
use go_wmp.Discovery.{contains_any, has_char, extract_domain}
use go_wmp.Invitation.{Invitation}
use go_wmp.Invitation.Uri.{
  Encoding, good, contains, after_last_hash, uri, https_uri, parse_invitation_json,
  decode_invitation, parse_wmp_uri, parse_https_uri, parse_invitation_uri,
}

contains_start : (s t : String) → starts_with s t ≡ true → contains s t ≡ true
unfolding contains
contains_start [] t h = h
contains_start (c ∷ s) t h = rw h refl

contains_behind : (p s t : String) → contains s t ≡ true → contains (p ++ s) t ≡ true
unfolding contains
contains_behind [] s t h = rw (nil-append s) h
contains_behind (c ∷ p) s t h =
    let there = contains_behind p s t h in
    rw (cons-append c p s) (elim (Bool-cases (starts_with (c ∷ (p ++ s)) t)) [
      | inl now ↦ rw now refl
      | inr later ↦ rw later there
    ])

no_hash_left : (s : String) → contains_any s "#" ≡ false → after_last_hash s ≡ none
unfolding after_last_hash contains_any has_char
no_hash_left [] h = refl
no_hash_left (c ∷ s) h = let rest = no_hash_left s (ground arith) in ground arith

found_later :
    (c : Char) (s rest : String)
    → after_last_hash s ≡ some rest
    → after_last_hash (c ∷ s) ≡ some rest
unfolding after_last_hash
found_later c s rest h = rw h refl

after_last_hash-append :
    (p s : String) → contains_any s "#" ≡ false → after_last_hash (p ++ ("#" ++ s)) ≡ some s
unfolding after_last_hash
after_last_hash-append [] s h =
    rw (nil-append ("#" ++ s), cons-append (char 35 tt) "" s, nil-append s, no_hash_left s h) refl
after_last_hash-append (c ∷ p) s h =
    subst (λ l. after_last_hash l ≡ some s) (sym (cons-append c p ("#" ++ s)))
      (found_later c (p ++ ("#" ++ s)) s (after_last_hash-append p s h))

https_is_no_wmp : (rest : String) → starts_with ("https://" ++ rest) "wmp://invite" ≡ false
https_is_no_wmp rest = elim (Bool-cases (starts_with ("https://" ++ rest) "wmp://invite")) [
  | inr other ↦ other
  | inl same ↦
      let (u, e) = (starts_with_iff ("https://" ++ rest) "wmp://invite").0 same in
      let begins : slice ("wmp://invite" ++ u) 0 8 ≡ "wmp://in" =
        subst (λ s. slice s 0 8 ≡ "wmp://in") (sym (append_assoc "wmp://in" "vite" u))
          (slice-append_left "wmp://in" ("vite" ++ u)) in
      let heads : "wmp://in" ≡ "https://" =
        sym begins ∙ ap (λ s. slice s 0 8) e ∙ slice-append_left "https://" rest in
      let test : str_eq "wmp://in" "https://" ≡ true = (eq_iff "wmp://in" "https://").1 heads in
      absurd (cc test)
]

wmp_is_wmp : (rest : String) → starts_with ("wmp://invite?data=" ++ rest) "wmp://invite" ≡ true
wmp_is_wmp rest =
    subst (λ s. starts_with s "wmp://invite" ≡ true)
      (sym (append_assoc "wmp://invite" "?data=" rest))
      (starts_with-append "wmp://invite" ("?data=" ++ rest))

-- Go's libraries at one invitation: marshalling and base64url are undone by their inverses, the encoded
-- text is not empty and has no "#", and the query of the URI has it under "data".
pub record IsEncodable (e : Encoding) (inv : Invitation) : Type 0 where
  pub bytes : String
  pub marshalled : e.marshal inv ≡ some bytes
  pub unmarshalled : e.unmarshal bytes ≡ some inv
  pub decoded : e.decode (e.encode bytes) ≡ some bytes
  pub not_empty : str_eq (e.encode bytes) "" ≡ false
  pub no_hash : contains_any (e.encode bytes) "#" ≡ false
  pub queried : e.query_get ("wmp://invite?data=" ++ e.encode bytes) "data" ≡ some (e.encode bytes)

module _ (e : Encoding) (inv : Invitation) (h : IsEncodable e inv) where
  abbrev encoded : String
  encoded = e.encode h.bytes

  decodes : decode_invitation e encoded ≡ good inv
  unfolding decode_invitation parse_invitation_json
  decodes = rw (decode_invitation, h.decoded, parse_invitation_json, h.unmarshalled) refl

  parses_wmp : parse_invitation_uri e ("wmp://invite?data=" ++ encoded) ≡ good inv
  unfolding parse_invitation_uri parse_wmp_uri
  parses_wmp =
      rw (parse_invitation_uri, wmp_is_wmp encoded, parse_wmp_uri, h.queried, h.not_empty) decodes

  parses_https :
      (domain : String)
      → parse_invitation_uri e ("https://" ++ domain ++ "/wmp/invite#" ++ encoded) ≡ good inv
  unfolding parse_invitation_uri parse_https_uri
  parses_https domain =
      let rest : String = domain ++ "/wmp/invite#" ++ encoded in
      let here : contains ("https://" ++ rest) "/wmp/invite#" ≡ true =
        contains_behind "https://" rest "/wmp/invite#" (
          contains_behind domain ("/wmp/invite#" ++ encoded) "/wmp/invite#" (
            contains_start ("/wmp/invite#" ++ encoded) "/wmp/invite#"
              (starts_with-append "/wmp/invite#" encoded))) in
      let found : after_last_hash ("https://" ++ rest) ≡ some encoded =
        subst (λ s. after_last_hash s ≡ some encoded)
          (append_assoc "https://" (domain ++ "/wmp/invite") ("#" ++ encoded)
            ∙ ap (λ s. "https://" ++ s)
                (append_assoc domain "/wmp/invite" ("#" ++ encoded)
                  ∙ ap (λ s. domain ++ s) (sym (append_assoc "/wmp/invite" "#" encoded))))
          (after_last_hash-append ("https://" ++ (domain ++ "/wmp/invite")) encoded h.no_hash) in
      rw (parse_invitation_uri, https_is_no_wmp rest, here, parse_https_uri, found, h.not_empty)
        decodes

  -- The URI of an invitation that Go's libraries marshal and encode faithfully exists and parses back to
  -- the invitation; so does the HTTPS URI, whenever the provider has a domain.
  pub parse-uri :
      ((text : String) × (uri e inv ≡ good text) × (parse_invitation_uri e text ≡ good inv))
      × (str_eq (extract_domain inv.provider) "" ≡ false
          → (text : String) × (https_uri e inv ≡ good text)
            × (parse_invitation_uri e text ≡ good inv))
  unfolding uri https_uri
  parse-uri = (
    (_, rw (uri, h.marshalled) refl, parses_wmp),
    λ named.
        (_, rw (https_uri, named, h.marshalled) refl, parses_https (extract_domain inv.provider)),
  )
