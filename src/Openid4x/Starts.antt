-- ===== src/Openid4x/Starts.antt =====
-- pkg/wmp/openid4x/openid4x.go, `StartFlow`: which messages start a flow.
use go_wmp.Prelude.{
  sym, subst, ◌≡◌, refl, ◌↔◌, ◌⊎◌, inl, inr, String, Bool, true, false, none, some, List, [], ◌∷◌,
  arith, if◌then◌else◌, str_eq, Bool-cases, Option-cases, eq_iff, Option,
}
use go_wmp.Prelude.Maps.{Map, lookup, lookup-insert}
use go_wmp.Types.Json.{Raw, Value}
use go_wmp.Types.Flow.{FlowStartParams}
use go_wmp.Jsonrpc.{RpcError, Codec}
use go_wmp.Context.{Context}
use go_wmp.Openid4x.Validation.{has, validate_vci_start_params, validate_vp_start_params}
use go_wmp.Openid4x.{
  FlowStartResult, rpc, FlowStartHandler, Returned, Config, World, validate_start,
  validate_flow_start_params, start_flow, enter_flow,
}

abbrev pub offer_keys : List String
offer_keys = "auth_code" ∷ "credential_offer" ∷ "credential_offer_uri" ∷ "offer" ∷ []

abbrev pub request_keys : List String
request_keys = "request_uri" ∷ "request_uri_ref" ∷ "presentation_definition" ∷ "dcql_query" ∷ []

-- One of the keys has a value.
abbrev pub Offers : List String → Map Value → Type 0
Offers [] params = ⊥
Offers (key ∷ keys) params = ((v : Value) × (lookup key params ≡ some v)) ⊎ Offers keys params

-- There are no parameters, or they decode to an object with one of the keys.
abbrev pub HasParams : (String → Option (Map Value)) → List String → Raw → Type 0
HasParams decode keys none = Unit
HasParams decode keys (some raw) =
    (params : Map Value) × (decode raw ≡ some params) × Offers keys params

-- The message starts a flow of one of the two types.
abbrev pub IsStart : (String → Option (Map Value)) → FlowStartParams → Type 0
IsStart decode ps =
    ((ps.flow_type ≡ "oid4vci") × HasParams decode offer_keys ps.params)
    ⊎ ((ps.flow_type ≡ "oid4vp") × HasParams decode request_keys ps.params)

any_of : List String → Map Value → Bool
any_of [] params = false
any_of (key ∷ keys) params = let rest = any_of keys params in if has key params then true else rest

any_of_missing :
    (key : String) (keys : List String) (params : Map Value)
    → lookup key params ≡ none
    → (Offers keys params → any_of keys params ≡ true)
    → Offers (key ∷ keys) params
    → any_of (key ∷ keys) params ≡ true
unfolding any_of
any_of_missing key keys params gone f (inl (v, there)) = cc
any_of_missing key keys params gone f (inr o) = let found = f o in ground arith

any_of-Offers :
    (keys : List String) (params : Map Value) → (any_of keys params ≡ true) ↔ Offers keys params
unfolding any_of
any_of-Offers [] params = (λ e. absurd (cc e), λ e. absurd e)
any_of-Offers (key ∷ keys) params = elim (Option-cases (lookup key params)) [
  | inl gone ↦
      let rest = any_of-Offers keys params in
      (λ e. inr (rest.0 (ground arith)), λ o. any_of_missing key keys params gone rest.1 o)
  | inr (v, there) ↦ (λ e. inl (v, there), λ o. ground arith)
]

vci_none_iff :
    (c : Codec) (params : Map Value)
    → (validate_vci_start_params c params ≡ none) ↔ (any_of offer_keys params ≡ true)
unfolding validate_vci_start_params any_of
vci_none_iff c params = ground arith

vp_none_iff :
    (c : Codec) (params : Map Value)
    → (validate_vp_start_params c params ≡ none) ↔ (any_of request_keys params ≡ true)
unfolding validate_vp_start_params any_of
vp_none_iff c params = ground arith

-- A check of the parameters that passes when one of the keys is there.
params_iff :
    (decode : String → Option (Map Value)) (keys : List String)
    (check : Map Value → Option RpcError) (e : RpcError) (raw : String)
    → ((params : Map Value) → (check params ≡ none) ↔ (any_of keys params ≡ true))
    → (elim (decode raw) [ none ↦ some e | some params ↦ check params ] ≡ none)
      ↔ HasParams decode keys (some raw)
params_iff decode keys check e raw fine = elim (Option-cases (decode raw)) [
  | inl bad ↦ (λ o. absurd (cc (rw bad at o)), λ h. absurd (cc (rw bad at h.1)))
  | inr (params, good) ↦ rw good (
    λ o. (params, refl, (any_of-Offers keys params).0 ((fine params).0 o)),
    λ h.
        let (other, same, offers) = h in
        let eq : params ≡ other = ground arith in
        (fine params).1 (rw eq ((any_of-Offers keys other).1 offers)),
  )
]

module _ (c : Codec) (decode : String → Option (Map Value)) where
  vci_start_iff :
      (ps : FlowStartParams)
      → ps.flow_type ≡ "oid4vci"
      → (validate_start c decode ps ≡ none) ↔ HasParams decode offer_keys ps.params
  unfolding validate_start validate_flow_start_params
  vci_start_iff ps vci = rw vci (go ps.params)
    where
      go :
          (raw : Raw)
          → (elim raw [
            | none ↦ none
            | some s ↦ validate_flow_start_params c decode "oid4vci" (some s)
          ]
              ≡ none)
            ↔ HasParams decode offer_keys raw
      go none = (λ o. tt, λ h. refl)
      go (some s) = params_iff decode offer_keys (validate_vci_start_params c) _ s (vci_none_iff c)

  vp_start_iff :
      (ps : FlowStartParams)
      → ps.flow_type ≡ "oid4vp"
      → (validate_start c decode ps ≡ none) ↔ HasParams decode request_keys ps.params
  unfolding validate_start validate_flow_start_params
  vp_start_iff ps vp = rw vp (go ps.params)
    where
      go :
          (raw : Raw)
          → (elim raw [
            | none ↦ none
            | some s ↦ validate_flow_start_params c decode "oid4vp" (some s)
          ]
              ≡ none)
            ↔ HasParams decode request_keys raw
      go none = (λ o. tt, λ h. refl)
      go (some s) = params_iff decode request_keys (validate_vp_start_params c) _ s (vp_none_iff c)

-- Nothing has changed, and an RPC error is the answer.
abbrev pub Refuses : {W A : Type 0} → World W → Returned A × World W → Type 0
Refuses {W} {A} w r = (r.1 ≡ w) × (e : RpcError) × (r.0 ≡ (none, some (rpc e)))

abbrev pub callback : {W : Type 0} → Config W → String → Option (FlowStartHandler W)
callback cfg flow_type = if str_eq flow_type "oid4vci" then cfg.on_vci_start else cfg.on_vp_start

-- The flow is entered under its type, and the callback answers, or a result without an error.
pub record Takes {W : Type 0} (cfg : Config W) (ctx : Context) (ps : FlowStartParams) (w : World W)
    (r : Returned FlowStartResult × World W) : Type 0 where
  pub entered :
      (id : String)
      → lookup id r.1.flow_types
        ≡ (if str_eq ps.flow_id id then some ps.flow_type else lookup id w.flow_types)
  pub called :
      (f : FlowStartHandler W)
      → callback cfg ps.flow_type ≡ some f
      → (r.0, r.1.app) ≡ f ctx ps w.app
  pub answered :
      callback cfg ps.flow_type ≡ none
      → (r.1.app ≡ w.app)
        × (r.0 ≡ (
          some (record { wmp = ps.wmp; flow_id = ps.flow_id; flow_type = ps.flow_type }),
          none,
        ))

module _ {W : Type 0} (cfg : Config W) (ctx : Context) (ps : FlowStartParams) (w : World W) where
  enter_flow-Takes :
      Takes cfg ctx ps w (enter_flow (callback cfg ps.flow_type) ps.flow_type ctx ps w)
  unfolding enter_flow
  enter_flow-Takes = record {
    entered = λ id. elim (Option-cases (callback cfg ps.flow_type)) [
      | inl default ↦
          rw (default, enter_flow) (lookup-insert ps.flow_id id ps.flow_type w.flow_types)
      | inr (f, set) ↦ rw (set, enter_flow) (lookup-insert ps.flow_id id ps.flow_type w.flow_types)
    ];
    called = λ f set. rw (set, enter_flow) refl;
    answered = λ default. rw (default, enter_flow) (refl, refl);
  }

module _ {W : Type 0} (c : Codec) (decode : String → Option (Map Value)) (cfg : Config W)
    (ctx : Context) (ps : FlowStartParams) (w : World W) where
  Refuses-invalid :
      (e : RpcError)
      → validate_start c decode ps ≡ some e
      → Refuses w (start_flow c decode cfg ctx ps w)
  unfolding start_flow
  Refuses-invalid e bad = rw (bad, start_flow) (refl, e, refl)

  Refuses-unknown :
      str_eq ps.flow_type "oid4vci" ≡ false
      → str_eq ps.flow_type "oid4vp" ≡ false
      → Refuses w (start_flow c decode cfg ctx ps w)
  unfolding start_flow
  Refuses-unknown vci vp = elim (Option-cases (validate_start c decode ps)) [
    | inl good ↦ rw (good, vci, vp, start_flow) (refl, _, refl)
    | inr (e, bad) ↦ Refuses-invalid e bad
  ]

  Takes-vci :
      ps.flow_type ≡ "oid4vci"
      → validate_start c decode ps ≡ none
      → Takes cfg ctx ps w (start_flow c decode cfg ctx ps w)
  unfolding start_flow
  Takes-vci vci good =
      subst (Takes cfg ctx ps w) (sym (rw (good, vci, start_flow) refl))
        (enter_flow-Takes cfg ctx ps w)

  Takes-vp :
      ps.flow_type ≡ "oid4vp"
      → validate_start c decode ps ≡ none
      → Takes cfg ctx ps w (start_flow c decode cfg ctx ps w)
  unfolding start_flow
  Takes-vp vp good =
      subst (Takes cfg ctx ps w) (sym (rw (good, vp, start_flow) refl))
        (enter_flow-Takes cfg ctx ps w)

  Takes-start : IsStart decode ps → Takes cfg ctx ps w (start_flow c decode cfg ctx ps w)
  Takes-start (inl (vci, has_params)) = Takes-vci vci ((vci_start_iff c decode ps vci).1 has_params)
  Takes-start (inr (vp, has_params)) = Takes-vp vp ((vp_start_iff c decode ps vp).1 has_params)

  Refuses-other : (IsStart decode ps → ⊥) → Refuses w (start_flow c decode cfg ctx ps w)
  Refuses-other never = elim (Option-cases (validate_start c decode ps)) [
    | inr (e, bad) ↦ Refuses-invalid e bad
    | inl good ↦
        Refuses-unknown
          (elim (Bool-cases (str_eq ps.flow_type "oid4vci")) [
            | inr other ↦ other
            | inl same ↦
                let vci = (eq_iff ps.flow_type "oid4vci").0 same in
                absurd (never (inl (vci, (vci_start_iff c decode ps vci).0 good)))
          ])
          (elim (Bool-cases (str_eq ps.flow_type "oid4vp")) [
            | inr other ↦ other
            | inl same ↦
                let vp = (eq_iff ps.flow_type "oid4vp").0 same in
                absurd (never (inr (vp, (vp_start_iff c decode ps vp).0 good)))
          ])
  ]

  -- StartFlow takes the messages that IsStart describes: it enters the flow's type under the flow's id,
  -- leaves the other entries, and answers with the callback for the type, or, where there is none, with
  -- a result and no error. It answers every other message with an RPC error and changes nothing.
  pub start_flow-Takes :
      (IsStart decode ps → Takes cfg ctx ps w (start_flow c decode cfg ctx ps w))
      × ((IsStart decode ps → ⊥) → Refuses w (start_flow c decode cfg ctx ps w))
  start_flow-Takes = (Takes-start, Refuses-other)
