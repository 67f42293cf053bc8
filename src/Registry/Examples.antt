-- ===== src/Registry/Examples.antt =====
-- Tests of the registry.
use go_wmp.Registry.Resolvers.{IsForeign}
use go_wmp.Registry.{
  IdentifierResolver, handles_scheme, resolve_identifier, new_registry, Middleware, MiddlewareFunc,
  register, run_middleware,
}
use go_wmp.Prelude.{some, true, All, ◌+◌, ◌≡◌, refl, ℕ, none, List, [], ◌∷◌}
use go_wmp.Fixtures.{context, profile, starter}
use go_wmp.Registry.Middleware.{nested, run_middleware-nested}
use go_wmp.Registry.Register.{Leads, register_complete}

no_conflict : (register profile new_registry).1 ≡ none
unfolding register go_wmp.Registry.claim_all go_wmp.Prelude.Maps.lookup new_registry
no_conflict = refl

register_complete_example :
    Leads ("oid4vci" ∷ []) (register profile new_registry).0.flow_handlers starter
register_complete_example = (register_complete profile new_registry no_conflict).0 starter refl

-- Two middlewares that write into a list before they go on, and a dispatcher that does so too.
abbrev writes : ℕ → Middleware (List ℕ)
writes n = λ ctx method params next s. next ctx method params (n ∷ s)

abbrev last : MiddlewareFunc (List ℕ)
last = λ ctx method params s. ((none, none), 9 ∷ s)

run_middleware-nested_example :
    run_middleware (writes 1 ∷ writes 2 ∷ []) last ≡ nested (writes 1 ∷ writes 2 ∷ []) last
run_middleware-nested_example = run_middleware-nested (writes 1 ∷ writes 2 ∷ []) last

abbrev web : IdentifierResolver ℕ
web = record {
  schemes = "https://" ∷ [];
  resolve = λ ctx identifier w. (
    (
      some (record { endpoint = identifier; capabilities = []; relay = ""; mls_key_packages = "" }),
      none,
    ),
    w + 1,
  );
}

abbrev did : IdentifierResolver ℕ
did = record { schemes = "did:" ∷ []; resolve = λ ctx identifier w. ((none, none), w + 100) }

did-IsForeign : All (IsForeign {W = ℕ} context "https://a") (did ∷ [])
unfolding handles_scheme
did-IsForeign = (refl, tt)

web_is_meant : handles_scheme "https://a" web.schemes ≡ true
unfolding handles_scheme
web_is_meant = refl
