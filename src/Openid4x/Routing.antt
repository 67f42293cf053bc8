-- ===== src/Openid4x/Routing.antt =====
-- pkg/wmp/openid4x/openid4x.go: which callback gets an action, after any history of messages.
use go_wmp.Prelude.{
  ap, eq_iff, ◌≡◌, refl, ◌∙◌, String, Bool, ◌&&◌, ◌||◌, ◌⊎◌, inl, inr, Option, none, some, List, [],
  ◌∷◌, arith, if◌then◌else◌, str_eq, is_some, not,
}
use go_wmp.Prelude.Maps.{Map, lookup, erase, lookup-insert, lookup-erase}
use go_wmp.Types.Json.{Value}
use go_wmp.Types.Flow.{
  FlowStartParams, FlowProgressParams, FlowActionParams, FlowActionResult, FlowCompleteParams,
  FlowErrorParams,
}
use go_wmp.Jsonrpc.{Codec}
use go_wmp.Context.{Context}
use go_wmp.Profile.{Returned}
use go_wmp.Openid4x.{
  ActionHandler, action_handler, FlowStartResult, Config, World, validate_start, start_flow,
  enter_flow, handle_action, handle_progress, handle_complete, handle_error, accepted,
}

-- A message for a flow, with the context of its request.
pub data Event : Type 0 where
  starts : Context → FlowStartParams → Event
  acts : Context → FlowActionParams → Event
  progresses : Context → FlowProgressParams → Event
  completes : Context → FlowCompleteParams → Event
  fails : Context → FlowErrorParams → Event

module _ {W : Type 0} (c : Codec) (decode : String → Option (Map Value)) (cfg : Config W) where
  unfoldable pub step : Event → World W → World W
  step (starts ctx ps) w = (start_flow c decode cfg ctx ps w).1
  step (acts ctx ps) w = (handle_action cfg ctx ps w).1
  step (progresses ctx ps) w = handle_progress ctx ps w
  step (completes ctx ps) w = handle_complete ctx ps w
  step (fails ctx ps) w = handle_error ctx ps w

  -- The last event stands first.
  unfoldable pub after : List Event → World W → World W
  unfolding step
  after [] w = w
  after (e ∷ es) w = step e (after es w)

-- The start is of a known type, and its parameters are valid.
abbrev pub is_taken : Codec → (String → Option (Map Value)) → FlowStartParams → Bool
is_taken c decode ps =
    (str_eq ps.flow_type "oid4vci" || str_eq ps.flow_type "oid4vp")
    && not (is_some (validate_start c decode ps))

-- The type of a flow: that of its last taken start, if no completion or error of it came later.
abbrev pub type_after : Codec → (String → Option (Map Value)) → String → List Event → Option String
type_after c decode id [] = none
type_after c decode id (starts ctx ps ∷ es) =
    let before = type_after c decode id es in
    if is_taken c decode ps
    then (if str_eq ps.flow_id id then some ps.flow_type else before)
    else before
type_after c decode id (acts ctx ps ∷ es) = type_after c decode id es
type_after c decode id (progresses ctx ps ∷ es) = type_after c decode id es
type_after c decode id (completes ctx ps ∷ es) =
    let before = type_after c decode id es in if str_eq ps.flow_id id then none else before
type_after c decode id (fails ctx ps ∷ es) =
    let before = type_after c decode id es in if str_eq ps.flow_id id then none else before

module _ {W : Type 0} (c : Codec) (decode : String → Option (Map Value)) (cfg : Config W) where
  enter_types :
      (h : Option (Context → FlowStartParams → W → Returned FlowStartResult × W)) (t id : String)
      (ctx : Context) (ps : FlowStartParams) (w : World W)
      → lookup id (enter_flow h t ctx ps w).1.flow_types
        ≡ (if str_eq ps.flow_id id then some t else lookup id w.flow_types)
  unfolding enter_flow
  enter_types none t id ctx ps w = lookup-insert ps.flow_id id t w.flow_types
  enter_types (some f) t id ctx ps w = lookup-insert ps.flow_id id t w.flow_types

  start_types :
      (id : String) (ctx : Context) (ps : FlowStartParams) (w : World W)
      → lookup id (start_flow c decode cfg ctx ps w).1.flow_types ≡ (
          if is_taken c decode ps
          then (if str_eq ps.flow_id id then some ps.flow_type else lookup id w.flow_types)
          else lookup id w.flow_types)
  unfolding start_flow
  start_types id ctx ps w = ground (
    arith,
    eq_iff ps.flow_type "oid4vci",
    eq_iff ps.flow_type "oid4vp",
    enter_types cfg.on_vci_start "oid4vci" id ctx ps w,
    enter_types cfg.on_vp_start "oid4vp" id ctx ps w,
  )

  action_types :
      (id : String) (ctx : Context) (ps : FlowActionParams) (w : World W)
      → lookup id (handle_action cfg ctx ps w).1.flow_types ≡ lookup id w.flow_types
  unfolding handle_action
  action_types id ctx ps w = ground arith

  erased_types :
      (flow_id id : String) (m : Map String) (before : Option String)
      → lookup id m ≡ before
      → lookup id (erase flow_id m) ≡ (if str_eq flow_id id then none else before)
  erased_types flow_id id m before e = lookup-erase flow_id id m ∙ rw e refl

  types_after :
      (id : String) (es : List Event) (w : World W)
      → w.flow_types ≡ []
      → lookup id (after c decode cfg es w).flow_types ≡ type_after c decode id es
  unfolding after step lookup handle_progress handle_complete handle_error
  types_after id [] w fresh = rw fresh refl
  types_after id (starts ctx ps ∷ es) w fresh =
      let before = types_after id es w fresh in
      ground (arith, start_types id ctx ps (after c decode cfg es w))
  types_after id (acts ctx ps ∷ es) w fresh =
      action_types id ctx ps (after c decode cfg es w) ∙ types_after id es w fresh
  types_after id (progresses ctx ps ∷ es) w fresh = types_after id es w fresh
  types_after id (completes ctx ps ∷ es) w fresh =
      erased_types ps.flow_id id (after c decode cfg es w).flow_types _ (types_after id es w fresh)
  types_after id (fails ctx ps ∷ es) w fresh =
      erased_types ps.flow_id id (after c decode cfg es w).flow_types _ (types_after id es w fresh)

-- The answer to an action for a flow of a type, `none` where the flow has none: the OID4VCI callback
-- answers for "oid4vci" and the OID4VP callback for "oid4vp"; where there is none, the action is
-- accepted and the application's state stays.
pub record IsAnswered {W : Type 0} (cfg : Config W) (flow_type : Option String) (ctx : Context)
    (ps : FlowActionParams) (app : W) (r : Returned FlowActionResult × W) : Type 0 where
  pub issuance :
      (f : Context → FlowActionParams → W → Returned FlowActionResult × W)
      → flow_type ≡ some "oid4vci"
      → cfg.on_vci_action ≡ some f
      → r ≡ f ctx ps app
  pub presentation :
      (f : Context → FlowActionParams → W → Returned FlowActionResult × W)
      → flow_type ≡ some "oid4vp"
      → cfg.on_vp_action ≡ some f
      → r ≡ f ctx ps app
  pub default :
      (flow_type ≡ none)
        ⊎ ((flow_type ≡ some "oid4vci") × (cfg.on_vci_action ≡ none))
        ⊎ ((flow_type ≡ some "oid4vp") × (cfg.on_vp_action ≡ none))
      → r ≡ (
        (
          some (record {
            wmp = ps.wmp;
            flow_id = ps.flow_id;
            action = ps.action;
            status = "accepted";
          }),
          none,
        ),
        app,
      )

module _ {W : Type 0} (cfg : Config W) (ctx : Context) (ps : FlowActionParams) (w : World W) where
  abbrev acted : Returned FlowActionResult × W
  acted = let r = handle_action cfg ctx ps w in (r.0, r.1.app)

  acted_by :
      (h : Option (ActionHandler W))
      → action_handler cfg (lookup ps.flow_id w.flow_types) ≡ h
      → acted ≡ elim h [ some f ↦ f ctx ps w.app | none ↦ ((some (accepted ps), none), w.app) ]
  unfolding handle_action
  acted_by none e = rw (e, handle_action) refl
  acted_by (some f) e = rw (e, handle_action) refl

  pub handle_action-IsAnswered :
      (flow_type : Option String)
      → lookup ps.flow_id w.flow_types ≡ flow_type
      → IsAnswered cfg flow_type ctx ps w.app acted
  unfolding action_handler accepted
  handle_action-IsAnswered flow_type e =
      let by : (t : Option String)
          → flow_type ≡ t
          → action_handler cfg (lookup ps.flow_id w.flow_types) ≡ action_handler cfg t =
        λ t same. ap (action_handler cfg) (e ∙ same) in
      record {
        issuance = λ f same callback. acted_by (some f) (by (some "oid4vci") same ∙ callback);
        presentation = λ f same callback. acted_by (some f) (by (some "oid4vp") same ∙ callback);
        default = λ why. acted_by none (elim why [
          | inl same ↦ by none same
          | inr (inl (same, missing)) ↦ by (some "oid4vci") same ∙ missing
          | inr (inr (same, missing)) ↦ by (some "oid4vp") same ∙ missing
        ]);
      }

module _ {W : Type 0} (c : Codec) (decode : String → Option (Map Value)) (cfg : Config W) where
  -- After any history on a profile with an empty table, an action is answered by the callback for the
  -- type of the flow's last taken start, if no completion or error of the flow came later: the OID4VCI
  -- callback for "oid4vci", the OID4VP callback for "oid4vp". Otherwise, and where that callback is
  -- missing, it is answered with the status "accepted" and the application's state stays.
  pub action_follows_history :
      (es : List Event) (w : World W) (ctx : Context) (ps : FlowActionParams)
      → w.flow_types ≡ []
      → let now = after c decode cfg es w in
        let r = handle_action cfg ctx ps now in
        IsAnswered cfg (type_after c decode ps.flow_id es) ctx ps now.app (r.0, r.1.app)
  action_follows_history es w ctx ps fresh =
      handle_action-IsAnswered cfg ctx ps (after c decode cfg es w) _
        (types_after c decode cfg ps.flow_id es w fresh)
