-- ===== src/Openid4x/Examples.antt =====
-- Tests of the OpenID4x profile.
use go_wmp.Profile.{flow_started}
use go_wmp.Prelude.{
  sym, subst, ◌≡◌, refl, ℕ, ◌+◌, String, Option, none, some, List, [], ◌∷◌, inl, inr, if◌then◌else◌,
  str_eq, true, false,
}
use go_wmp.Prelude.Maps.{Map, lookup}
use go_wmp.Types.Json.{Value, str}
use go_wmp.Types.Flow.{FlowStartParams, FlowActionParams}
use go_wmp.Relay.{version_only}
use go_wmp.Profile.Base.{base_handler}
use go_wmp.Session.{Session, memory_session_store}
use go_wmp.Peer.{State}
use go_wmp.Peer.Dispatch.{on_flow_start, on_flow_action}
use go_wmp.Fixtures.{codec, context, start, complete, structs, progress}
use go_wmp.Openid4x.{
  FlowActionResult, Returned, rpc, RpcError, is_some, Config, World, start_flow, handle_action,
  accepted,
}
use go_wmp.Openid4x.Validation.{validate_action, is_valid_format}
use go_wmp.Openid4x.Starts.{offer_keys, Offers, IsStart, Takes, start_flow-Takes}
use go_wmp.Openid4x.Routing.{starts, progresses, completes, after, action_follows_history}
use go_wmp.Openid4x.Registered.{with_openid4x, IsActed, peer_starts_flow}

abbrev decode : String → Option (Map Value)
decode text =
    if str_eq text "{\"offer\":\"o\"}"
    then some (("offer", str "o") ∷ [])
    else if str_eq text "{}"
    then some []
    else none

-- Counts the actions of issuance flows.
abbrev config : Config ℕ
config = record {
  oid4vci = some (record {
    supported_grants = [];
    supported_formats = [];
    supported_proof_types = [];
    batch_issuance = false;
  });
  oid4vp = none;
  on_vci_start = none;
  on_vci_action = some (λ ctx ps w. ((some (accepted ps), none), w + 1));
  on_vp_start = none;
  on_vp_action = none;
}

abbrev offer : FlowStartParams
offer = record start { params = some "{\"offer\":\"o\"}" }

abbrev no_offer : FlowStartParams
no_offer = record start { params = some "{}" }

abbrev accept : FlowActionParams
accept = record { wmp = version_only; flow_id = "f1"; action = "accept_offer"; params = none }

abbrev other_flow : FlowActionParams
other_flow = record accept { flow_id = "f2" }

abbrev world : World ℕ
world = record { flow_types = []; app = 0 }

offer-IsStart : IsStart decode offer
unfolding lookup
offer-IsStart = inl (refl, (("offer", str "o") ∷ [], refl, inr (inr (inr (inl (str "o", refl))))))

start_flow-Takes_example :
    Takes config context offer world (start_flow codec decode config context offer world)
start_flow-Takes_example =
    (start_flow-Takes codec decode config context offer world).0 offer-IsStart

-- A test: the callback counts an action between the start and the completion, and none behind it.
action_counts :
    ((handle_action config context accept (
        after codec decode config
          (progresses context progress ∷ starts context offer ∷ [])
          world)).1.app
      ≡ 1)
    × ((handle_action config context accept (
          after codec decode config
            (completes context complete ∷ starts context offer ∷ [])
            world)).1.app
        ≡ 0)
unfolding handle_action go_wmp.Openid4x.action_handler lookup after go_wmp.Openid4x.handle_progress
    start_flow go_wmp.Openid4x.validate_start go_wmp.Openid4x.validate_flow_start_params
    go_wmp.Openid4x.Validation.validate_vci_start_params go_wmp.Openid4x.enter_flow
    go_wmp.Prelude.Maps.insert go_wmp.Openid4x.handle_complete go_wmp.Prelude.Maps.erase
action_counts = (refl, refl)

-- A test: an offer without its key is refused.
no_offer_refused : (start_flow codec decode config context no_offer world).1 ≡ world
unfolding start_flow go_wmp.Openid4x.validate_start go_wmp.Openid4x.validate_flow_start_params
    go_wmp.Openid4x.Validation.validate_vci_start_params lookup
no_offer_refused = refl

-- A test: "authorize" is an action of issuance and not of presentation.
authorize_action :
    (validate_action codec "oid4vci" "authorize" ≡ none)
    × (is_some (validate_action codec "oid4vp" "authorize") ≡ true)
    × (is_valid_format "mso_mdoc" ≡ true)
unfolding validate_action go_wmp.Openid4x.Validation.is_flow_action
    go_wmp.Openid4x.Validation.is_engine_action is_valid_format
authorize_action = (refl, refl, refl)

action_follows_history_example :
    let now = after codec decode config (starts context offer ∷ []) world in
    let r = handle_action config context accept now in
    let q = handle_action config context other_flow now in
    ◌≡◌ {A = Returned FlowActionResult × ℕ}
      (r.0, r.1.app)
      ((some (accepted accept), none), now.app + 1)
    × ◌≡◌ {A = Returned FlowActionResult × ℕ}
        (q.0, q.1.app)
        (
          (
            some (record {
              wmp = version_only;
              flow_id = "f2";
              action = "accept_offer";
              status = "accepted";
            }),
            none,
          ),
          now.app,
        )
unfolding go_wmp.Openid4x.action_handler go_wmp.Openid4x.validate_start
    go_wmp.Openid4x.validate_flow_start_params go_wmp.Openid4x.Validation.validate_vci_start_params
    lookup
action_follows_history_example = (
  (action_follows_history codec decode config (starts context offer ∷ []) world context accept
        refl).issuance
      (λ ctx ps w. ((some (accepted ps), none), w + 1)) refl refl,
  (action_follows_history codec decode config (starts context offer ∷ []) world context other_flow
        refl).default
      (inl refl),
)

abbrev state : State (World ℕ) (Map Session)
state = record { registry = with_openid4x codec decode config; sessions = none; world = world }

nothing_offered : Offers offer_keys [] → ⊥
unfolding lookup
nothing_offered (inl (v, e)) = absurd (cc e)
nothing_offered (inr (inl (v, e))) = absurd (cc e)
nothing_offered (inr (inr (inl (v, e)))) = absurd (cc e)
nothing_offered (inr (inr (inr (inl (v, e))))) = absurd (cc e)
nothing_offered (inr (inr (inr (inr o)))) = absurd o

no_offer-IsStart : IsStart decode no_offer → ⊥
unfolding lookup
no_offer-IsStart (inl (_, (params, e, offers))) =
    let same : [] ≡ params = cc in nothing_offered (subst (Offers offer_keys) (sym same) offers)
no_offer-IsStart (inr (e, _)) = absurd (cc e)

-- The refusal, and a start with the action that follows it.
peer_starts_flow_example :
    let started =
      on_flow_start codec structs memory_session_store base_handler context offer state in
    ((e : RpcError) × (on_flow_start codec structs memory_session_store base_handler context
          no_offer state
        ≡ ((some (flow_started none), some (rpc e)), state)))
    × IsActed config "oid4vci" context accept 0
        (on_flow_action codec structs memory_session_store base_handler context accept started.1)
unfolding start_flow go_wmp.Openid4x.validate_start go_wmp.Openid4x.validate_flow_start_params
    go_wmp.Openid4x.Validation.validate_vci_start_params lookup on_flow_start
    go_wmp.Registry.lookup_flow_handler go_wmp.Registry.register go_wmp.Openid4x.new
    go_wmp.Registry.claim_all go_wmp.Openid4x.flow_types go_wmp.Registry.new_registry
    go_wmp.Openid4x.resolve_types go_wmp.Prelude.Maps.insert go_wmp.Openid4x.enter_flow
peer_starts_flow_example = (
  (peer_starts_flow codec decode config structs memory_session_store base_handler context no_offer
        state refl (inl (refl, refl))).0
      no_offer-IsStart,
  ((peer_starts_flow codec decode config structs memory_session_store base_handler context offer
          state refl (inl (refl, refl))).1
        offer-IsStart).1
      (record { wmp = version_only; flow_id = "f1"; flow_type = "oid4vci" }) context accept refl
      refl,
)
