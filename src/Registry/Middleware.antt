-- ===== src/Registry/Middleware.antt =====
-- The middleware chain, outermost first.
use go_wmp.Prelude.{◌≡◌, refl, List, [], ◌∷◌, ◌++◌, ap, ◌∙◌}
use mathlib.Core.List.{reverse, reverse-cons}
use go_wmp.Registry.{Middleware, MiddlewareFunc, build_chain, run_middleware}

-- The chain as it is meant: each middleware is given the rest of the list as `next`.
unfoldable pub nested : {S : Type 0} → List (Middleware S) → MiddlewareFunc S → MiddlewareFunc S
nested [] final = final
nested (mw ∷ mws) final = λ ctx method params s. mw ctx method params (nested mws final) s

module _ {S : Type 0} where
  build_chain-append :
      (xs ys : List (Middleware S)) (chain : MiddlewareFunc S)
      → build_chain (xs ++ ys) chain ≡ build_chain ys (build_chain xs chain)
  unfolding build_chain
  build_chain-append [] ys chain = refl
  build_chain-append (x ∷ xs) ys chain = build_chain-append xs ys _

  build_chain-reverse :
      (mws : List (Middleware S)) (final : MiddlewareFunc S)
      → build_chain (reverse mws) final ≡ nested mws final
  unfolding nested
  build_chain-reverse [] final = unfold build_chain in refl
  build_chain-reverse (mw ∷ mws) final =
      ap (λ l. build_chain l final) (reverse-cons mw mws)
      ∙ build_chain-append (reverse mws) (mw ∷ []) final
      ∙ one (build_chain (reverse mws) final)
      ∙ ap (λ (next : MiddlewareFunc S). λ ctx method params s. mw ctx method params next s)
          (build_chain-reverse mws final)
    where
      one :
          (chain : MiddlewareFunc S)
          → build_chain (mw ∷ []) chain ≡ (λ ctx method params s. mw ctx method params chain s)
      one chain = unfold build_chain in refl

  -- The chain that `runMiddleware` builds from the inside out calls the middleware in the order of
  -- registration, each with the rest of the chain as its continuation and the dispatcher innermost.
  pub run_middleware-nested :
      (mws : List (Middleware S)) (final : MiddlewareFunc S)
      → run_middleware mws final ≡ nested mws final
  unfolding run_middleware
  run_middleware-nested [] final = unfold nested in refl
  run_middleware-nested (mw ∷ mws) final = build_chain-reverse (mw ∷ mws) final
