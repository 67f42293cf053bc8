-- ===== src/Registry.antt =====
-- pkg/wmp/registry.go: the registered profiles and handlers, the owners of the running flows, and the
-- loops over middleware, hooks and resolvers. The registry's lock makes each method one step. The
-- middleware list stands beside the registry (Peer.antt), since its functions run over the
-- registry's state.
pub mod Register
pub mod Middleware
pub mod Resolvers
mod Examples
use Prim.Native.String
use go_wmp.Prelude.{
  String, Bool, true, false, Option, none, some, List, [], ◌∷◌, ◌++◌, if◌then◌else◌,
}
use mathlib.Core.List.{reverse}
use text.Mathlib.Text.{starts_with}
use go_wmp.Prelude.Maps.{Map, lookup, insert, erase}
use go_wmp.Types.Json.{Raw}
use go_wmp.Types.Session.{SessionCreateParams, SessionCloseParams}
use go_wmp.Session.{Session}
use go_wmp.Context.{Context}
use go_wmp.Profile.{
  Failure, Reply, Returned, DiscoveredEndpoint, FlowHandler, MethodHandler, ResolveHandler,
  SessionHook, IdentifierResolver, Profile,
}

pub record Registry (W : Type 0) : Type 0 where
  pub profiles : List (Profile W)
  pub flow_handlers : Map (FlowHandler W)
  pub methods : Map (MethodHandler W)
  pub resolvers : Map (ResolveHandler W)
  pub id_resolvers : List (IdentifierResolver W)
  pub session_hooks : List (SessionHook W)
  pub flow_owners : Map (FlowHandler W)

-- Which name was found registered already.
pub data Conflict : Type 0 where
  flow_type method resolve_type : String → Conflict

-- The loop that enters a handler under each of its names, and stops at one that is taken.
unfoldable pub claim_all {ℓ} : {H : Type ℓ} → List String → H → Map H → Map H × Option String
claim_all [] h m = (m, none)
claim_all (name ∷ names) h m = elim (lookup name m) [
  | some old ↦ (m, some name)
  | none ↦ claim_all names h (insert name h m)
]

-- Appends what a type assertion found.
abbrev pub append_option {ℓ} : {A : Type ℓ} → List A → Option A → List A
append_option xs none = xs
append_option xs (some x) = xs ++ x ∷ []

-- The inner loop: does one of the schemes begin the identifier? At most one call is made.
unfoldable pub handles_scheme : String → List String → Bool
handles_scheme identifier [] = false
handles_scheme identifier (scheme ∷ schemes) =
    let rest = handles_scheme identifier schemes in
    if starts_with identifier scheme then true else rest

module _ {W : Type 0} where
  unfoldable pub new_registry : Registry W
  new_registry = record {
    profiles = [];
    flow_handlers = [];
    methods = [];
    resolvers = [];
    id_resolvers = [];
    session_hooks = [];
    flow_owners = [];
  }

  -- The five type assertions of `register`, one after the other. A conflict returns at once, with
  -- what has been entered so far.
  register_hooks : Profile W → Registry W → Registry W × Option Conflict
  register_hooks p r = (
    record r {
      session_hooks = append_option r.session_hooks p.session_hook;
      id_resolvers = append_option r.id_resolvers p.identifier_resolver;
    },
    none,
  )

  register_resolver : Profile W → Registry W → Registry W × Option Conflict
  register_resolver p r = elim p.resolve_handler [
    | none ↦ register_hooks p r
    | some h ↦
        let (m, taken) = claim_all h.resolve_types h r.resolvers in
        elim taken [
          | some name ↦ (record r { resolvers = m }, some (resolve_type name))
          | none ↦ register_hooks p (record r { resolvers = m })
        ]
  ]

  register_methods : Profile W → Registry W → Registry W × Option Conflict
  register_methods p r = elim p.method_handler [
    | none ↦ register_resolver p r
    | some h ↦
        let (m, taken) = claim_all h.methods h r.methods in
        elim taken [
          | some name ↦ (record r { methods = m }, some (method name))
          | none ↦ register_resolver p (record r { methods = m })
        ]
  ]

  register_flows : Profile W → Registry W → Registry W × Option Conflict
  register_flows p r = elim p.flow_handler [
    | none ↦ register_methods p r
    | some h ↦
        let (m, taken) = claim_all h.flow_types h r.flow_handlers in
        elim taken [
          | some name ↦ (record r { flow_handlers = m }, some (flow_type name))
          | none ↦ register_methods p (record r { flow_handlers = m })
        ]
  ]

  unfoldable pub register : Profile W → Registry W → Registry W × Option Conflict
  unfolding register_flows register_methods register_resolver register_hooks
  register p r = register_flows p (record r { profiles = r.profiles ++ p ∷ [] })

  unfoldable pub lookup_flow_handler : String → Registry W → Option (FlowHandler W)
  lookup_flow_handler ft r = lookup ft r.flow_handlers

  unfoldable pub lookup_flow_owner : String → Registry W → Option (FlowHandler W)
  lookup_flow_owner flow_id r = lookup flow_id r.flow_owners

  unfoldable pub track_flow : String → FlowHandler W → Registry W → Registry W
  track_flow flow_id h r = record r { flow_owners = insert flow_id h r.flow_owners }

  unfoldable pub untrack_flow : String → Registry W → Registry W
  untrack_flow flow_id r = record r { flow_owners = erase flow_id r.flow_owners }

  unfoldable pub lookup_method : String → Registry W → Option (MethodHandler W)
  lookup_method name r = lookup name r.methods

  unfoldable pub lookup_resolver : String → Registry W → Option (ResolveHandler W)
  lookup_resolver rt r = lookup rt r.resolvers

  -- `runSessionCreateHooks`: the session passes through the hooks until one returns an error.
  unfoldable pub run_session_create_hooks :
      List (SessionHook W)
      → Context
      → Session
      → SessionCreateParams
      → W
      → Option Failure × Session × W
  run_session_create_hooks [] ctx s ps w = (none, s, w)
  run_session_create_hooks (h ∷ hooks) ctx s ps w =
      let r = h.on_session_create ctx s ps w in
      elim r.0 [
        | some e ↦ (some e, r.1, r.2)
        | none ↦ run_session_create_hooks hooks ctx r.1 ps r.2
      ]

  unfoldable pub run_session_close_hooks :
      List (SessionHook W) → Context → Session → SessionCloseParams → W → W
  run_session_close_hooks [] ctx s ps w = w
  run_session_close_hooks (h ∷ hooks) ctx s ps w =
      run_session_close_hooks hooks ctx s ps (h.on_session_close ctx s ps w)

  unfoldable pub resolve_identifier :
      List (IdentifierResolver W) → Context → String → W → Returned DiscoveredEndpoint × W
  unfolding handles_scheme
  resolve_identifier [] ctx identifier w = ((none, none), w)
  resolve_identifier (ir ∷ resolvers) ctx identifier w =
      let skip = resolve_identifier resolvers ctx identifier w in
      let ((result, error), w') = ir.resolve ctx identifier w in
      let next = resolve_identifier resolvers ctx identifier w' in
      if handles_scheme identifier ir.schemes
      then elim error [
        | some e ↦ ((none, some e), w')
        | none ↦ elim result [ some found ↦ ((some found, none), w') | none ↦ next ]
      ]
      else skip

-- A step of the middleware chain over a state.
abbrev pub MiddlewareFunc : Type 0 → Type 0
MiddlewareFunc S = Context → String → Raw → S → Returned Reply × S

abbrev pub Middleware : Type 0 → Type 0
Middleware S = Context → String → Raw → MiddlewareFunc S → S → Returned Reply × S

-- The loop of `runMiddleware`, from the last middleware to the first.
unfoldable pub build_chain :
    {S : Type 0} → List (Middleware S) → MiddlewareFunc S → MiddlewareFunc S
build_chain [] chain = chain
build_chain (mw ∷ mws) chain = build_chain mws (λ ctx method params s. mw ctx method params chain s)

unfoldable pub run_middleware :
    {S : Type 0} → List (Middleware S) → MiddlewareFunc S → MiddlewareFunc S
unfolding build_chain
run_middleware [] final = final
run_middleware (mw ∷ mws) final = build_chain (reverse (mw ∷ mws)) final
