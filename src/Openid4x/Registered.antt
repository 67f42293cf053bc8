-- ===== src/Openid4x/Registered.antt =====
-- pkg/wmp/openid4x/openid4x.go with pkg/wmp/registry.go and pkg/wmp/peer.go: a peer that uses the
-- profile.
use go_wmp.Prelude.{
  ◌++◌, ◌≡◌, refl, ◌∙◌, String, Option, none, some, List, Option-cases, inl, inr, ◌⊎◌, is_some,
  true,
}
use go_wmp.Prelude.Maps.{Map, lookup, insert}
use go_wmp.Types.Json.{Value}
use go_wmp.Types.Flow.{FlowStartParams}
use go_wmp.Jsonrpc.{Codec, RpcError}
use go_wmp.Context.{Context}
use go_wmp.Session.{SessionStore}
use go_wmp.Profile.{Handler, rpc, flow_started}
use go_wmp.Registry.{Registry, new_registry, register, lookup_flow_handler, claim_all}
use go_wmp.Registry.Register.{register_complete, Leads}
use text.Mathlib.TextPositions.{eq_refl}
use go_wmp.Peer.{State, Structs}
use go_wmp.Peer.Dispatch.{on_flow_start}
use go_wmp.Profile.{Failure, flow_acted}
use go_wmp.Types.Flow.{FlowStartResult, FlowActionParams, FlowActionResult}
use go_wmp.Registry.{lookup_flow_owner}
use go_wmp.Peer.Flows.{has_started, on_flow_start-owner}
use go_wmp.Profile.{Returned, Reply}
use go_wmp.Prelude.{ap}
use go_wmp.Peer.Dispatch.{on_flow_action, Outcome}
use go_wmp.Openid4x.Routing.{IsAnswered, handle_action-IsAnswered}
use go_wmp.Openid4x.{
  handle_action, Oid4vpCapability, flow_handler, Config, World, new, start_flow, flow_types,
  when_some,
}
use go_wmp.Openid4x.Starts.{IsStart, start_flow-Takes}

-- The configuration has the capability for the flow's type.
abbrev pub IsEnabled : {W : Type 0} → Config W → String → Type 0
IsEnabled cfg flow_type =
    ((flow_type ≡ "oid4vci") × (is_some cfg.oid4vci ≡ true))
    ⊎ ((flow_type ≡ "oid4vp") × (is_some cfg.oid4vp ≡ true))

module _ {ℓ} {H : Type ℓ} {A : Type 0} (m : Map H) (h : H) where
  Leads-first :
      (o : Option A) (name : String) (rest : List String)
      → is_some o ≡ true
      → Leads (when_some o name ++ rest) m h
      → lookup name m ≡ some h
  unfolding when_some
  Leads-first none name rest e l = cc
  Leads-first (some a) name rest e l = l.0

Leads-second {ℓ} :
    {H : Type ℓ} {A B : Type 0} (m : Map H) (h : H) (o : Option A) (first : String) (o' : Option B)
    (name : String)
    → is_some o' ≡ true
    → Leads (when_some o first ++ when_some o' name) m h
    → lookup name m ≡ some h
unfolding when_some
Leads-second m h o first none name e l = cc
Leads-second m h none first (some b) name e l = l.0
Leads-second m h (some a) first (some b) name e l = l.1.0

module _ {W : Type 0} (c : Codec) (decode : String → Option (Map Value)) (cfg : Config W) where
  abbrev pub with_openid4x : Registry (World W)
  with_openid4x = (register (new c decode cfg) new_registry).0

  registers : (register (new c decode cfg) new_registry).1 ≡ none
  unfolding register new new_registry claim_all flow_types when_some go_wmp.Openid4x.resolve_types
      lookup insert
  registers = elim (Option-cases cfg.oid4vci) [
    | inl a ↦ elim (Option-cases cfg.oid4vp) [
      | inl b ↦ rw (a, b) refl
      | inr (y, b) ↦ rw (a, b) refl
    ]
    | inr (x, a) ↦ elim (Option-cases cfg.oid4vp) [
      | inl b ↦ rw (a, b) refl
      | inr (y, b) ↦ rw (a, b) refl
    ]
  ]

  leads : Leads (flow_types cfg) with_openid4x.flow_handlers (flow_handler c decode cfg)
  unfolding new
  leads =
      (register_complete (new c decode cfg) new_registry registers).0 (flow_handler c decode cfg)
        refl

  -- Its own two types lead to the profile, as far as they are enabled.
  finds_profile :
      (flow_type : String)
      → IsEnabled cfg flow_type
      → lookup_flow_handler flow_type with_openid4x ≡ some (flow_handler c decode cfg)
  unfolding lookup_flow_handler flow_types
  finds_profile flow_type (inl (vci, there)) = rw vci (
      Leads-first with_openid4x.flow_handlers _ cfg.oid4vci "oid4vci"
        (when_some cfg.oid4vp "oid4vp") there leads)
  finds_profile flow_type (inr (vp, there)) = rw vp (
      Leads-second with_openid4x.flow_handlers _ cfg.oid4vci "oid4vci" cfg.oid4vp "oid4vp" there
        leads)

started_answer :
    (r : Returned FlowStartResult) (result : FlowStartResult)
    → ◌≡◌ {A = Returned Reply}
        (some (flow_started r.0), r.1)
        (some (flow_started (some result)), none)
    → has_started r ≡ true
started_answer (some x, none) result e = refl
started_answer (some x, some f) result e = let bad : some f ≡ none = ap (λ y. y.1) e in cc
started_answer (none, f) result e =
    let bad : ◌≡◌ {A = Option Reply} (some (flow_started none))
        (some (flow_started (some result))) =
      ap (λ y. y.0) e in
    cc

-- The peer's answer to an action, by the profile's callback for the type.
pub record IsActed {W S : Type 0} (cfg : Config W) (flow_type : String) (ctx : Context)
    (ps : FlowActionParams) (app : W) (out : Outcome (World W) S) : Type 0 where
  pub result : Option FlowActionResult
  pub error : Option Failure
  pub answer : out.0 ≡ (some (flow_acted result), error)
  pub right : IsAnswered cfg (some flow_type) ctx ps app ((result, error), out.1.world.app)

module _ {W S : Type 0} (c : Codec) (decode : String → Option (Map Value)) (cfg : Config W)
    (d : Structs) (store : SessionStore S) (h : Handler (World W)) where
  acts_next :
      (ctx : Context) (ps : FlowActionParams) (flow_type : String) (st : State (World W) S)
      → lookup_flow_owner ps.flow_id st.registry ≡ some (flow_handler c decode cfg)
      → lookup ps.flow_id st.world.flow_types ≡ some flow_type
      → IsActed cfg flow_type ctx ps st.world.app (on_flow_action c d store h ctx ps st)
  unfolding on_flow_action
  acts_next ctx ps flow_type st owner entered =
      let r = handle_action cfg ctx ps st.world in
      record {
        result = r.0.0;
        error = r.0.1;
        answer = rw (owner, on_flow_action) refl;
        right =
            rw (owner, on_flow_action)
              (handle_action-IsAnswered cfg ctx ps st.world (some flow_type) entered);
      }

  owns :
      (ctx : Context) (ps : FlowStartParams) (st : State (World W) S) (result : FlowStartResult)
      → lookup_flow_handler ps.flow_type st.registry ≡ some (flow_handler c decode cfg)
      → (on_flow_start c d store h ctx ps st).0 ≡ (some (flow_started (some result)), none)
      → lookup_flow_owner ps.flow_id (on_flow_start c d store h ctx ps st).1.registry
        ≡ some (flow_handler c decode cfg)
  unfolding on_flow_start
  owns ctx ps st result found started =
      let answered = rw (found, on_flow_start) at started in
      let both = started_answer (start_flow c decode cfg ctx ps st.world).0 result answered in
      on_flow_start-owner c d store h ctx st ps (flow_handler c decode cfg) found ps.flow_id
      ∙ rw (both, eq_refl ps.flow_id) refl

  enters :
      (ctx : Context) (ps : FlowStartParams) (st : State (World W) S)
      → lookup_flow_handler ps.flow_type st.registry ≡ some (flow_handler c decode cfg)
      → IsStart decode ps
      → lookup ps.flow_id (on_flow_start c d store h ctx ps st).1.world.flow_types
        ≡ some ps.flow_type
  unfolding on_flow_start
  enters ctx ps st found start =
      let (takes, refuses) = start_flow-Takes c decode cfg ctx ps st.world in
      rw (found, on_flow_start) ((takes start).entered ps.flow_id ∙ rw (eq_refl ps.flow_id) refl)

  -- On a peer that uses the profile, and nothing else, a flow.start of an enabled type runs StartFlow.
  -- A message that IsStart does not describe is answered with an RPC error and changes neither the
  -- registry nor the state of the application. One that it describes enters the flow's type; if it is
  -- answered with a result and no error, a flow.action for the flow that comes next at the peer is
  -- answered by the profile's callback for this type, or accepted where there is none.
  pub peer_starts_flow :
      (ctx : Context) (ps : FlowStartParams) (st : State (World W) S)
      → st.registry ≡ with_openid4x c decode cfg
      → IsEnabled cfg ps.flow_type
      → ((IsStart decode ps → ⊥)
          → (e : RpcError) × (on_flow_start c d store h ctx ps st
              ≡ ((some (flow_started none), some (rpc e)), st)))
        × (IsStart decode ps
            → let started = on_flow_start c d store h ctx ps st in
              (lookup ps.flow_id started.1.world.flow_types ≡ some ps.flow_type)
              × ((result : FlowStartResult) (later : Context) (action : FlowActionParams)
                  → started.0 ≡ (some (flow_started (some result)), none)
                  → action.flow_id ≡ ps.flow_id
                  → IsActed cfg ps.flow_type later action started.1.world.app
                      (on_flow_action c d store h later action started.1)))
  unfolding on_flow_start
  peer_starts_flow ctx ps st fresh enabled =
      let found : lookup_flow_handler ps.flow_type st.registry ≡ some (flow_handler c decode cfg) =
        rw fresh (finds_profile c decode cfg ps.flow_type enabled) in
      let (takes, refuses) = start_flow-Takes c decode cfg ctx ps st.world in
      (
        λ other.
            let (same, e, answer) = refuses other in
            (e, rw (found, on_flow_start, same, answer) refl),
        λ start.
            let entered = enters ctx ps st found start in
            (
              entered,
              λ result later action started same.
                  acts_next later action ps.flow_type (on_flow_start c d store h ctx ps st).1
                    (rw same (owns ctx ps st result found started)) (rw same entered),
            ),
      )
