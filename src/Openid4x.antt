-- ===== src/Openid4x.antt =====
-- pkg/wmp/openid4x/openid4x.go: the OpenID4x profile. Its lock makes each access to the table of flow
-- types one step. The state is this table beside the state of the application's callbacks, which
-- cannot reach the table. `decode` is `json.Unmarshal` into a map[string]interface{}, where a JSON null
-- is the empty map.
pub mod Names
pub mod Validation
pub mod Starts
pub mod Routing
pub mod Registered
mod Examples
use Prim.Native.String
use go_wmp.Prelude.{String, Option, none, some, List, [], ◌∷◌, ◌++◌, str_eq, if◌then◌else◌, is_some}
use go_wmp.Prelude.Maps.{Map, lookup, insert, erase}
use go_wmp.Errors.{err_flow_error, err_invalid_params, err_capability_not_supported}
use go_wmp.Types.Json.{Raw, Value}
use go_wmp.Types.Flow.{
  FlowStartParams, FlowStartResult, FlowProgressParams, FlowActionParams, FlowActionResult,
  FlowCompleteParams, FlowErrorParams,
}
use go_wmp.Types.Message.{ResolveParams, ResolveResult}
use go_wmp.Types.Openid4x.{Oid4vciCapability, Oid4vpCapability}
use go_wmp.Jsonrpc.{Codec, RpcError, new_rpc_error, reason, unmarshal}
use go_wmp.Context.{Context}
use go_wmp.Profile.{Failure, rpc, Returned, FlowHandler, ResolveHandler, Profile}
use go_wmp.Openid4x.Names.{flow_type_oid4vci, flow_type_oid4vp}
use go_wmp.Openid4x.Validation.{validate_vci_start_params, validate_vp_start_params}

abbrev pub FlowStartHandler : Type 0 → Type 0
FlowStartHandler W = Context → FlowStartParams → W → Returned FlowStartResult × W

abbrev pub ActionHandler : Type 0 → Type 0
ActionHandler W = Context → FlowActionParams → W → Returned FlowActionResult × W

pub record Config (W : Type 0) : Type 0 where
  pub oid4vci : Option Oid4vciCapability
  pub oid4vp : Option Oid4vpCapability
  pub on_vci_start : Option (FlowStartHandler W)
  pub on_vci_action : Option (ActionHandler W)
  pub on_vp_start : Option (FlowStartHandler W)
  pub on_vp_action : Option (ActionHandler W)

-- What changes: `Profile.flowTypes`, and the state of the application.
pub record World (W : Type 0) : Type 0 where
  pub flow_types : Map String
  pub app : W

-- A switch on the two flow types.
abbrev pub by_type {ℓ} : {A : Type ℓ} → String → A → A → A → A
by_type flow_type vci vp unknown =
    if str_eq flow_type flow_type_oid4vci
    then vci
    else if str_eq flow_type flow_type_oid4vp
    then vp
    else unknown

-- The body of `validateFlowStartParams`; `none` is a valid text.
unfoldable pub validate_flow_start_params :
    Codec → (String → Option (Map Value)) → String → Raw → Option RpcError
validate_flow_start_params c decode flow_type raw = elim (unmarshal decode raw) [
  | none ↦ some (new_rpc_error err_invalid_params (reason c "invalid flow params JSON"))
  | some params ↦
      by_type flow_type (validate_vci_start_params c params) (validate_vp_start_params c params) (
        some
          (new_rpc_error err_flow_error (reason c (String.◌++◌ "unknown flow type: " flow_type))))
]

-- `if params.Params != nil { validate }`
unfoldable pub validate_start :
    Codec → (String → Option (Map Value)) → FlowStartParams → Option RpcError
validate_start c decode ps = elim ps.params [
  | none ↦ none
  | some raw ↦ validate_flow_start_params c decode ps.flow_type (some raw)
]

unfoldable pub accepted : FlowActionParams → FlowActionResult
accepted ps = record { wmp = ps.wmp; flow_id = ps.flow_id; action = ps.action; status = "accepted" }

-- `if p.config.OID4VCI != nil { append }`
unfoldable pub when_some : {A : Type 0} → Option A → String → List String
when_some none name = []
when_some (some a) name = name ∷ []

unfoldable pub resolve_types : List String
resolve_types = "vctm" ∷ "issuer_metadata" ∷ []

module _ {W : Type 0} where
  -- One case of the switch in `StartFlow`: the entry, and the callback or the default answer.
  unfoldable pub enter_flow :
      Option (FlowStartHandler W)
      → String
      → Context
      → FlowStartParams
      → World W
      → Returned FlowStartResult × World W
  enter_flow on_start flow_type ctx ps w =
      let flow_types = insert ps.flow_id flow_type w.flow_types in
      elim on_start [
        | some f ↦ let r = f ctx ps w.app in (r.0, record { flow_types = flow_types; app = r.1 })
        | none ↦ (
          (some (record { wmp = ps.wmp; flow_id = ps.flow_id; flow_type = ps.flow_type }), none),
          record { flow_types = flow_types; app = w.app },
        )
      ]

  unfoldable pub start_flow :
      Codec
      → (String → Option (Map Value))
      → Config W
      → Context
      → FlowStartParams
      → World W
      → Returned FlowStartResult × World W
  start_flow c decode cfg ctx ps w = elim (validate_start c decode ps) [
    | some e ↦ ((none, some (rpc e)), w)
    | none ↦
        by_type ps.flow_type (enter_flow cfg.on_vci_start flow_type_oid4vci ctx ps w)
          (enter_flow cfg.on_vp_start flow_type_oid4vp ctx ps w)
          ((none, some (rpc (new_rpc_error err_flow_error none))), w)
  ]

  -- The callback for a flow's type: a missing entry reads as the empty string.
  unfoldable pub action_handler : Config W → Option String → Option (ActionHandler W)
  action_handler cfg none = none
  action_handler cfg (some flow_type) = by_type flow_type cfg.on_vci_action cfg.on_vp_action none

  unfoldable pub handle_action :
      Config W → Context → FlowActionParams → World W → Returned FlowActionResult × World W
  handle_action cfg ctx ps w = elim (action_handler cfg (lookup ps.flow_id w.flow_types)) [
    | some f ↦ let r = f ctx ps w.app in (r.0, record w { app = r.1 })
    | none ↦ ((some (accepted ps), none), w)
  ]

  unfoldable pub handle_progress : Context → FlowProgressParams → World W → World W
  handle_progress ctx ps w = w

  unfoldable pub handle_complete : Context → FlowCompleteParams → World W → World W
  handle_complete ctx ps w = record w { flow_types = erase ps.flow_id w.flow_types }

  unfoldable pub handle_error : Context → FlowErrorParams → World W → World W
  handle_error ctx ps w = record w { flow_types = erase ps.flow_id w.flow_types }

  unfoldable pub handle_resolve :
      Context → ResolveParams → World W → Returned ResolveResult × World W
  handle_resolve ctx ps w = (
    (none, some (rpc (new_rpc_error err_capability_not_supported (some "\"not implemented\"")))),
    w,
  )

  unfoldable pub capabilities : Config W → List String
  unfolding when_some
  capabilities cfg = when_some cfg.oid4vci "oid4vci" ++ when_some cfg.oid4vp "oid4vp"

  unfoldable pub flow_types : Config W → List String
  unfolding when_some
  flow_types cfg = when_some cfg.oid4vci flow_type_oid4vci ++ when_some cfg.oid4vp flow_type_oid4vp

  -- The methods for flows.
  abbrev pub flow_handler : Codec → (String → Option (Map Value)) → Config W → FlowHandler (World W)
  flow_handler c decode cfg = record {
    flow_types = flow_types cfg;
    start_flow = start_flow c decode cfg;
    handle_action = handle_action cfg;
    handle_progress = handle_progress;
    handle_complete = handle_complete;
    handle_error = handle_error;
  }

  -- `New`, as the value that a peer's registry gets: the methods that it offers.
  unfoldable pub new : Codec → (String → Option (Map Value)) → Config W → Profile (World W)
  new c decode cfg = record {
    name = "openid4x";
    capabilities = capabilities cfg;
    init = λ w. (none, w);
    flow_handler = some (flow_handler c decode cfg);
    method_handler = none;
    resolve_handler =
        some (record { resolve_types = resolve_types; handle_resolve = handle_resolve });
    session_hook = none;
    identifier_resolver = none;
  }
