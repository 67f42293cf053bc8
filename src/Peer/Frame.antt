-- ===== src/Peer/Frame.antt =====
-- The dispatcher, case by case: which methods may change the registry and the session store.
use go_wmp.Registry.{
  run_session_create_hooks, lookup_flow_handler, track_flow, untrack_flow, lookup_flow_owner,
  lookup_resolver, lookup_method,
}
use go_wmp.Prelude.{
  none, some, ◌≢◌, Bool-cases, ◌≡◌, refl, String, Bool, true, false, Option, some, Option-cases,
  inl, inr, if◌then◌else◌,
}
use go_wmp.Types.Json.{Raw}
use go_wmp.Types.Session.{SessionCreateResult, SessionCreateParams}
use go_wmp.Types.Flow.{
  FlowStartResult, FlowStartParams, FlowCompleteParams, FlowErrorParams, FlowCancelParams,
}
use go_wmp.Jsonrpc.{Codec, unmarshal}
use go_wmp.Session.{SessionStore}
use go_wmp.Context.{Context}
use go_wmp.Profile.{FlowHandler, Reply, Returned, Handler}
use go_wmp.Peer.{
  str_eq, Registry, is_supported_version, FlowActionParams, FlowProgressParams, ResolveParams,
  SessionResumeParams, State, Structs,
}
use go_wmp.Peer.Dispatch.{
  described, track_started, session_answer, store_session, Route, validate_credential_notification,
  dispatch_method, on_credential_notification, run_route, flow_cancel, flow_error, flow_complete,
  flow_start, session_create, on_custom_method, on_flow_action, on_flow_progress, on_resolve, route,
  Outcome, with_params, on_session_create, on_session_resume, on_flow_start, on_flow_complete,
  on_flow_error, on_flow_cancel,
}

if_elim {ℓ κ} :
    {A : Type ℓ} (P : A → Type κ) (b : Bool) (x y : A)
    → (b ≡ true → P x)
    → (b ≡ false → P y)
    → P (if b then x else y)
if_elim P true x y f g = f refl
if_elim P false x y f g = g refl

module _ {W S : Type 0} (c : Codec) (d : Structs) (store : SessionStore S) (h : Handler W)
    (ctx : Context) (method : String) (params : Raw) (st : State W S) where
  -- What has to be shown of each branch of the switch: of one that only runs application code, for
  -- whatever that code returns, and of the five that do more.
  pub record Branches (P : Outcome W S → Type 0) : Type 0 where
    pub runs : (o : Returned Reply) (w : W) → P (o, record st { world = w })
    pub creates :
        (ps : SessionCreateParams)
        → route method ≡ session_create
        → unmarshal d.session_create params ≡ some ps
        → P (on_session_create c d store h ctx ps st)
    pub starts :
        (ps : FlowStartParams)
        → route method ≡ flow_start
        → unmarshal d.flow_start params ≡ some ps
        → P (on_flow_start c d store h ctx ps st)
    pub completes :
        (ps : FlowCompleteParams)
        → route method ≡ flow_complete
        → unmarshal d.flow_complete params ≡ some ps
        → P (on_flow_complete c d store h ctx ps st)
    pub errs :
        (ps : FlowErrorParams)
        → route method ≡ flow_error
        → unmarshal d.flow_error params ≡ some ps
        → P (on_flow_error c d store h ctx ps st)
    pub cancels :
        (ps : FlowCancelParams)
        → route method ≡ flow_cancel
        → unmarshal d.flow_cancel params ≡ some ps
        → P (on_flow_cancel c d store h ctx ps st)

  module _ (P : Outcome W S → Type 0) (b : Branches P) where
    params_elim :
        {A : Type 0} (decode : String → Option A) (k : A → Outcome W S)
        → ((ps : A) → unmarshal decode params ≡ some ps → P (k ps))
        → P (with_params decode params st k)
    params_elim decode k good = elim (Option-cases (unmarshal decode params)) [
      | inl bad ↦ rw (bad, with_params) (b.runs _ st.world)
      | inr (ps, there) ↦ rw (there, with_params) (good ps there)
    ]

    resume_elim : (ps : SessionResumeParams) → P (on_session_resume c d store h ctx ps st)
    unfolding on_session_resume
    resume_elim ps = elim (Bool-cases (is_supported_version ps.wmp.version)) [
      | inl good ↦ rw (good, on_session_resume) (b.runs _ _)
      | inr bad ↦ rw (bad, on_session_resume) (b.runs _ st.world)
    ]

    progress_elim : (ps : FlowProgressParams) → P (on_flow_progress c d store h ctx ps st)
    unfolding on_flow_progress
    progress_elim ps = elim (Option-cases (lookup_flow_owner ps.flow_id st.registry)) [
      | inl free ↦ rw (free, on_flow_progress) (b.runs _ _)
      | inr (fh, owned) ↦ rw (owned, on_flow_progress) (b.runs _ _)
    ]

    action_elim : (ps : FlowActionParams) → P (on_flow_action c d store h ctx ps st)
    unfolding on_flow_action
    action_elim ps = elim (Option-cases (lookup_flow_owner ps.flow_id st.registry)) [
      | inl free ↦ rw (free, on_flow_action) (b.runs _ _)
      | inr (fh, owned) ↦ rw (owned, on_flow_action) (b.runs _ _)
    ]

    resolve_elim : (ps : ResolveParams) → P (on_resolve c d store h ctx ps st)
    unfolding on_resolve
    resolve_elim ps = elim (Option-cases (lookup_resolver ps.type st.registry)) [
      | inl free ↦ rw (free, on_resolve) (b.runs _ _)
      | inr (rh, found) ↦ rw (found, on_resolve) (b.runs _ _)
    ]

    custom_elim : P (on_custom_method c d store h ctx method params st)
    unfolding on_custom_method
    custom_elim = elim (Option-cases (lookup_method method st.registry)) [
      | inl free ↦ rw (free, on_custom_method) (b.runs _ st.world)
      | inr (mh, found) ↦ rw (found, on_custom_method) (b.runs _ _)
    ]

    notification_elim : P (on_credential_notification c d store h ctx params st)
    unfolding on_credential_notification
    notification_elim = elim (Option-cases h.credential_notification) [
      | inl free ↦ rw (free, on_credential_notification) (b.runs _ st.world)
      | inr (notify, found) ↦
          rw (found, on_credential_notification)
            (params_elim d.credential_notification _ (λ ps _.
              elim (Option-cases (validate_credential_notification c ps)) [
                | inl good ↦ rw good (b.runs _ _)
                | inr (e, bad) ↦ rw bad (b.runs _ st.world)
              ]))
    ]

    route_elim : (r : Route) → route method ≡ r → P (run_route c d store h r ctx method params st)
    unfolding run_route
    route_elim Route.session_create e = params_elim d.session_create _ (λ ps k. b.creates ps e k)
    route_elim Route.session_resume e = params_elim d.session_resume _ (λ ps k. resume_elim ps)
    route_elim Route.session_close e = params_elim d.session_close _ (λ ps k. b.runs _ _)
    route_elim Route.session_authenticate e =
        params_elim d.session_authenticate _ (λ ps k. b.runs _ _)
    route_elim Route.message_deliver e = params_elim d.message_deliver _ (λ ps k. b.runs _ _)
    route_elim Route.message_ack e = params_elim d.message_ack _ (λ ps k. b.runs _ _)
    route_elim Route.message_status e = params_elim d.message_status _ (λ ps k. b.runs _ _)
    route_elim Route.message_poll e = params_elim d.message_poll _ (λ ps k. b.runs _ _)
    route_elim Route.capability_update e = params_elim d.capability_update _ (λ ps k. b.runs _ _)
    route_elim Route.capability_list e = params_elim d.capability_list _ (λ ps k. b.runs _ _)
    route_elim Route.flow_start e = params_elim d.flow_start _ (λ ps k. b.starts ps e k)
    route_elim Route.flow_progress e = params_elim d.flow_progress _ (λ ps k. progress_elim ps)
    route_elim Route.flow_action e = params_elim d.flow_action _ (λ ps k. action_elim ps)
    route_elim Route.flow_complete e = params_elim d.flow_complete _ (λ ps k. b.completes ps e k)
    route_elim Route.flow_error e = params_elim d.flow_error _ (λ ps k. b.errs ps e k)
    route_elim Route.flow_cancel e = params_elim d.flow_cancel _ (λ ps k. b.cancels ps e k)
    route_elim Route.resolve e = params_elim d.resolve _ (λ ps k. resolve_elim ps)
    route_elim Route.credential_notification e = notification_elim
    route_elim Route.custom_method e = custom_elim

    pub dispatch_elim : P (dispatch_method c d store h ctx method params st)
    unfolding dispatch_method
    dispatch_elim = route_elim (route method) refl

-- The registered handlers are the same.
pub record SameHandlers {W : Type 0} (r r' : Registry W) : Type 0 where
  pub profiles : r'.profiles ≡ r.profiles
  pub flow_handlers : r'.flow_handlers ≡ r.flow_handlers
  pub methods : r'.methods ≡ r.methods
  pub resolvers : r'.resolvers ≡ r.resolvers
  pub id_resolvers : r'.id_resolvers ≡ r.id_resolvers
  pub session_hooks : r'.session_hooks ≡ r.session_hooks

-- The method is none of those that start or end a flow.
abbrev pub IsFlowNeutral : Route → Type 0
IsFlowNeutral r = (r ≢ flow_start) × (r ≢ flow_complete) × (r ≢ flow_error) × (r ≢ flow_cancel)

same_handlers : {W : Type 0} (r : Registry W) → SameHandlers r r
same_handlers r = record {
  profiles = refl;
  flow_handlers = refl;
  methods = refl;
  resolvers = refl;
  id_resolvers = refl;
  session_hooks = refl;
}

-- The outcome has the handlers and the sessions of the state.
abbrev KeepsRest : {W S : Type 0} → State W S → Outcome W S → Type 0
KeepsRest st o = SameHandlers st.registry o.1.registry × (o.1.sessions ≡ st.sessions)

module _ {W : Type 0} where
  track_started-SameHandlers :
      (fh : FlowHandler W) (id : String) (r : Returned FlowStartResult) (reg : Registry W)
      → SameHandlers reg (track_started fh id r reg)
  unfolding track_flow
  track_started-SameHandlers fh id (some r, none) reg = record {
    profiles = refl;
    flow_handlers = refl;
    methods = refl;
    resolvers = refl;
    id_resolvers = refl;
    session_hooks = refl;
  }
  track_started-SameHandlers fh id (some r, some e) reg = same_handlers reg
  track_started-SameHandlers fh id (none, e) reg = same_handlers reg

  untrack_flow-SameHandlers :
      (id : String) (reg : Registry W) → SameHandlers reg (untrack_flow id reg)
  unfolding untrack_flow
  untrack_flow-SameHandlers id reg = record {
    profiles = refl;
    flow_handlers = refl;
    methods = refl;
    resolvers = refl;
    id_resolvers = refl;
    session_hooks = refl;
  }

module _ {W S : Type 0} (c : Codec) (d : Structs) (store : SessionStore S) (h : Handler W)
    (ctx : Context) where
  store_session-registry :
      (ps : SessionCreateParams) (r : SessionCreateResult) (sessions : S) (st : State W S)
      → (store_session c d store h ctx ps r sessions st).1.registry ≡ st.registry
  unfolding store_session
  store_session-registry ps r sessions st =
      elim (Option-cases
        (run_session_create_hooks st.registry.session_hooks ctx (described ps r) ps st.world).0) [
          | inl fine ↦ rw (fine, store_session) refl
          | inr (e, failed) ↦ rw (failed, store_session) refl
        ]

  session_answer-registry :
      (ps : SessionCreateParams) (r : Option SessionCreateResult) (st : State W S)
      → (session_answer c d store h ctx ps r st).1.registry ≡ st.registry
  unfolding session_answer
  session_answer-registry ps none st = refl
  session_answer-registry ps (some r) st = elim (Option-cases st.sessions) [
    | inl no_store ↦ rw (no_store, session_answer) refl
    | inr (sessions, stored) ↦ elim (Bool-cases (str_eq r.wmp.session_id "")) [
      | inl empty ↦ rw (stored, empty, session_answer) refl
      | inr given ↦ rw (stored, given, session_answer) (store_session-registry ps r sessions st)
    ]
  ]

  on_session_create-registry :
      (ps : SessionCreateParams) (st : State W S)
      → (on_session_create c d store h ctx ps st).1.registry ≡ st.registry
  unfolding on_session_create
  on_session_create-registry ps st = elim (Bool-cases (is_supported_version ps.wmp.version)) [
    | inr bad ↦ rw (bad, on_session_create) refl
    | inl good ↦ elim (Option-cases (h.session_create ctx ps st.world).0.1) [
      | inr (e, failed) ↦ rw (good, failed, on_session_create) refl
      | inl fine ↦ rw (good, fine, on_session_create) (session_answer-registry ps _ _)
    ]
  ]

  on_flow_start-KeepsRest :
      (ps : FlowStartParams) (st : State W S) → KeepsRest st (on_flow_start c d store h ctx ps st)
  unfolding on_flow_start
  on_flow_start-KeepsRest ps st =
      elim (Option-cases (lookup_flow_handler ps.flow_type st.registry)) [
        | inl free ↦ rw (free, on_flow_start) (same_handlers st.registry, refl)
        | inr (fh, found) ↦
            rw (found, on_flow_start) (track_started-SameHandlers fh ps.flow_id _ _, refl)
      ]

  on_flow_complete-KeepsRest :
      (ps : FlowCompleteParams) (st : State W S)
      → KeepsRest st (on_flow_complete c d store h ctx ps st)
  unfolding on_flow_complete
  on_flow_complete-KeepsRest ps st =
      elim (Option-cases (lookup_flow_owner ps.flow_id st.registry)) [
        | inl free ↦ rw (free, on_flow_complete) (same_handlers st.registry, refl)
        | inr (fh, found) ↦
            rw (found, on_flow_complete) (untrack_flow-SameHandlers ps.flow_id _, refl)
      ]

  on_flow_error-KeepsRest :
      (ps : FlowErrorParams) (st : State W S) → KeepsRest st (on_flow_error c d store h ctx ps st)
  unfolding on_flow_error
  on_flow_error-KeepsRest ps st = elim (Option-cases (lookup_flow_owner ps.flow_id st.registry)) [
    | inl free ↦ rw (free, on_flow_error) (same_handlers st.registry, refl)
    | inr (fh, found) ↦ rw (found, on_flow_error) (untrack_flow-SameHandlers ps.flow_id _, refl)
  ]

  on_flow_cancel-KeepsRest :
      (ps : FlowCancelParams) (st : State W S) → KeepsRest st (on_flow_cancel c d store h ctx ps st)
  unfolding on_flow_cancel
  on_flow_cancel-KeepsRest ps st = elim (Option-cases (lookup_flow_owner ps.flow_id st.registry)) [
    | inl free ↦ rw (free, on_flow_cancel) (same_handlers st.registry, refl)
    | inr (fh, found) ↦ rw (found, on_flow_cancel) (untrack_flow-SameHandlers ps.flow_id _, refl)
  ]

module _ {W S : Type 0} (c : Codec) (d : Structs) (store : SessionStore S) (h : Handler W)
    (ctx : Context) (method : String) (params : Raw) (st : State W S) where
  -- A dispatched method changes none of the registered handlers; only flow.start, flow.complete,
  -- flow.error and flow.cancel change the flow owners, and only session.create changes the sessions.
  pub dispatch_frame :
      SameHandlers st.registry (dispatch_method c d store h ctx method params st).1.registry
      × (IsFlowNeutral (route method)
          → (dispatch_method c d store h ctx method params st).1.registry.flow_owners
            ≡ st.registry.flow_owners)
      × (route method ≢ session_create
          → (dispatch_method c d store h ctx method params st).1.sessions ≡ st.sessions)
  dispatch_frame = dispatch_elim c d store h ctx method params st Framed (record {
    runs = λ o w. (same_handlers st.registry, λ _. refl, λ _. refl);
    creates = λ ps e _.
        let unchanged = on_session_create-registry c d store h ctx ps st in
        (
          rw unchanged (same_handlers st.registry),
          λ _. rw unchanged refl,
          λ other. absurd (other e),
        );
    starts = λ ps e _.
        let kept = on_flow_start-KeepsRest c d store h ctx ps st in
        (kept.0, λ neutral. absurd (neutral.0 e), λ _. kept.1);
    completes = λ ps e _.
        let kept = on_flow_complete-KeepsRest c d store h ctx ps st in
        (kept.0, λ neutral. absurd (neutral.1 e), λ _. kept.1);
    errs = λ ps e _.
        let kept = on_flow_error-KeepsRest c d store h ctx ps st in
        (kept.0, λ neutral. absurd (neutral.2 e), λ _. kept.1);
    cancels = λ ps e _.
        let kept = on_flow_cancel-KeepsRest c d store h ctx ps st in
        (kept.0, λ neutral. absurd (neutral.3 e), λ _. kept.1);
  })
    where
      Framed : Outcome W S → Type 0
      Framed o =
          SameHandlers st.registry o.1.registry
          × (IsFlowNeutral (route method) → o.1.registry.flow_owners ≡ st.registry.flow_owners)
          × (route method ≢ session_create → o.1.sessions ≡ st.sessions)
