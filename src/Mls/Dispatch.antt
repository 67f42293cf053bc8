-- ===== src/Mls/Dispatch.antt =====
-- pkg/wmp/mls/mls.go with pkg/wmp/registry.go and pkg/wmp/peer.go: a peer that uses the MLS profile.
use go_wmp.Prelude.{◌≡◌, ◌≢◌, refl, String, none, some, List, arith, All, eq_iff}
use go_wmp.Prelude.Maps.{lookup, insert}
use go_wmp.Errors.{err_method_not_found}
use go_wmp.Types.Json.{Raw}
use go_wmp.Jsonrpc.{Codec, new_rpc_error}
use go_wmp.Context.{Context}
use go_wmp.Session.{SessionStore}
use go_wmp.Profile.{Handler, MethodHandler}
use go_wmp.Registry.{Registry, new_registry, register, lookup_method, claim_all}
use go_wmp.Peer.{State, Structs}
use go_wmp.Peer.Dispatch.{dispatch_method, on_custom_method, route, custom_method, fail_with}
use go_wmp.Mls.{MlsStructs, MlsHandler, handle_method, methods, new_profile}

-- Not one of the names.
abbrev pub IsOther : String → List String → Type 0
IsOther method names = All (λ name. name ≢ method) names

module _ {W S : Type 0} (c : Codec) (d : Structs) (store : SessionStore S) (h : Handler W)
    (m : MlsStructs) (mls : MlsHandler W) where
  abbrev pub with_mls : Registry W
  with_mls = (register (new_profile m mls) new_registry).0

  -- What a peer that uses the profile does with a method: HandleMethod answers.
  abbrev pub IsHandled : String → Type 0
  IsHandled method =
      (ctx : Context) (params : Raw) (st : State W S)
      → st.registry ≡ with_mls
      → let r = handle_method m mls ctx method params st.world in
        dispatch_method c d store h ctx method params st ≡ (r.0, record st { world = r.1 })

  -- It answers that there is no such method, and nothing changes.
  abbrev pub IsUnknown : String → Type 0
  IsUnknown method =
      (ctx : Context) (params : Raw) (st : State W S)
      → st.registry ≡ with_mls
      → dispatch_method c d store h ctx method params st
        ≡ (fail_with (new_rpc_error err_method_not_found none), st)

  finds :
      (method : String) (h' : MethodHandler W)
      → route method ≡ custom_method
      → lookup_method method with_mls ≡ some h'
      → (ctx : Context) (params : Raw) (st : State W S) → st.registry ≡ with_mls
      → let r = h'.handle_method ctx method params st.world in
        dispatch_method c d store h ctx method params st ≡ (r.0, record st { world = r.1 })
  unfolding dispatch_method on_custom_method
  finds method h' custom found ctx params st fresh =
      let there : lookup_method method st.registry ≡ some h' = rw fresh found in
      rw (custom, dispatch_method, on_custom_method, there) refl

  misses :
      (method : String)
      → route method ≡ custom_method
      → lookup_method method with_mls ≡ none
      → IsUnknown method
  unfolding dispatch_method on_custom_method
  misses method custom missing ctx params st fresh =
      let gone : lookup_method method st.registry ≡ none = rw fresh missing in
      rw (custom, dispatch_method, on_custom_method, gone) refl

  lookup_others : (method : String) → IsOther method methods → lookup_method method with_mls ≡ none
  unfolding lookup_method register new_profile new_registry claim_all methods lookup insert
  lookup_others method (a, (b, (e, (f, (g, (k, _)))))) = ground (
    arith,
    eq_iff "wmp.mls.group.create" method,
    eq_iff "wmp.mls.group.join" method,
    eq_iff "wmp.mls.group.add" method,
    eq_iff "wmp.mls.group.remove" method,
    eq_iff "wmp.mls.group.update" method,
    eq_iff "wmp.message.fetch" method,
  )

  -- On a peer that uses the MLS profile, and nothing else, each method that the profile lists is answered
  -- by HandleMethod; any other method that is not one of the protocol's own is answered with
  -- method-not-found, and nothing changes.
  pub peer_dispatches_mls :
      All IsHandled methods
      × ((method : String)
          → route method ≡ custom_method
          → IsOther method methods
          → IsUnknown method)
  unfolding methods route lookup_method register new_profile new_registry claim_all lookup insert
  peer_dispatches_mls = (
    (
      finds "wmp.mls.group.create" _ refl refl,
      (
        finds "wmp.mls.group.join" _ refl refl,
        (
          finds "wmp.mls.group.add" _ refl refl,
          (
            finds "wmp.mls.group.remove" _ refl refl,
            (finds "wmp.mls.group.update" _ refl refl, (finds "wmp.message.fetch" _ refl refl, tt)),
          ),
        ),
      ),
    ),
    λ method custom other. misses method custom (lookup_others method other),
  )
