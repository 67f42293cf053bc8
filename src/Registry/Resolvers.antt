-- ===== src/Registry/Resolvers.antt =====
-- The identifier resolvers: the first one that knows the identifier's scheme and has an answer wins.
use go_wmp.Registry.{handles_scheme, resolve_identifier}
use go_wmp.Profile.{DiscoveredEndpoint, Failure, IdentifierResolver}
use go_wmp.Context.{Context}
use go_wmp.Prelude.{ap, true, false, none, some, ◌≡◌, refl, List, [], ◌∷◌, ◌++◌, All, String}

module _ {W : Type 0} (ctx : Context) (identifier : String) where
  -- None of the resolver's schemes begins the identifier.
  abbrev pub IsForeign : IdentifierResolver W → Type 0
  IsForeign ir = handles_scheme identifier ir.schemes ≡ false

  skip_foreign :
      (before after : List (IdentifierResolver W)) (w : W)
      → All IsForeign before
      → resolve_identifier (before ++ after) ctx identifier w
        ≡ resolve_identifier after ctx identifier w
  unfolding resolve_identifier
  skip_foreign [] after w h = refl
  skip_foreign (ir ∷ before) after w (foreign, h) = rw foreign (skip_foreign before after w h)

  -- Resolvers for other schemes are not called. The first resolver for a scheme of the identifier
  -- decides when it returns an endpoint or an error; when it returns neither, the resolvers behind it
  -- are asked, with the state that it has left.
  pub resolve_identifier_first :
      (before after : List (IdentifierResolver W)) (ir : IdentifierResolver W) (w : W)
      → All IsForeign before
      → handles_scheme identifier ir.schemes ≡ true
      → let asked = ir.resolve ctx identifier w in
        let answer = resolve_identifier (before ++ ir ∷ after) ctx identifier w in
        ((e : Failure) → asked.0.1 ≡ some e → answer ≡ ((none, some e), asked.1))
        × ((found : DiscoveredEndpoint)
            → asked.0 ≡ (some found, none)
            → answer ≡ ((some found, none), asked.1))
        × (asked.0 ≡ (none, none) → answer ≡ resolve_identifier after ctx identifier asked.1)
  unfolding resolve_identifier
  resolve_identifier_first before after ir w foreign mine =
      rw (skip_foreign before (ir ∷ after) w foreign) (
        λ e failed. rw (mine, failed, resolve_identifier) refl,
        λ found good. rw (mine, ap (λ x. x.1) good, ap (λ x. x.0) good, resolve_identifier) refl,
        λ neither. rw (mine, ap (λ x. x.1) neither, ap (λ x. x.0) neither, resolve_identifier) refl,
      )
