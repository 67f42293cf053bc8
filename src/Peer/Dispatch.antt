-- ===== src/Peer/Dispatch.antt =====
-- pkg/wmp/peer.go, `dispatchMethodInternal`: one function for each case of the switch that does more
-- than decode and call, and the switch.
use Prim.Native.String
use go_wmp.Prelude.{String, not, Option, none, some, str_eq, if◌then◌else◌}
use go_wmp.Errors.{err_invalid_params, err_version_not_supported, err_method_not_found}
use go_wmp.Types.Json.{Raw}
use go_wmp.Types.Session.{SessionCreateParams, SessionCreateResult, SessionResumeParams}
use go_wmp.Types.Message.{ResolveParams, CredentialNotificationParams}
use go_wmp.Types.Flow.{
  FlowStartParams, FlowStartResult, FlowProgressParams, FlowActionParams, FlowCompleteParams,
  FlowErrorParams, FlowCancelParams,
}
use go_wmp.Jsonrpc.{Codec, RpcError, new_rpc_error, reason, unmarshal}
use go_wmp.Session.{Session, SessionStore}
use go_wmp.Context.{Context}
use go_wmp.Profile.{
  rpc, Reply, session_created, session_resumed, session_authenticated, message_polled,
  capability_updated, capability_listed, flow_started, flow_acted, flow_cancelled, resolved,
  Returned, FlowHandler, Handler,
}
use go_wmp.Registry.{
  Registry, lookup_flow_handler, lookup_flow_owner, track_flow, untrack_flow, lookup_method,
  lookup_resolver, run_session_create_hooks,
}
use go_wmp.Peer.{
  State, Structs, to_rpc_error, as_failure, is_supported_version, is_valid_credential_event,
}

-- The outcome of a method: the result (nil is `none`) and the error.
abbrev pub Outcome : Type 0 → Type 0 → Type 0
Outcome W S = Returned Reply × State W S

abbrev pub fail_with : RpcError → Returned Reply
fail_with e = (none, some (rpc e))

abbrev pub unsupported_version : RpcError
unsupported_version =
    new_rpc_error err_version_not_supported (some "{\"supported_versions\":[\"0.1\"]}")

module _ {W S : Type 0} where
  -- `return nil, nil` after a call that returns nothing.
  abbrev pub tell : State W S → W → Outcome W S
  tell st w = ((none, none), record st { world = w })

  -- `return f(ctx, &ps)`: the pointer goes into the interface, nil or not.
  abbrev pub ask : {A : Type 0} → (Option A → Reply) → State W S → Returned A × W → Outcome W S
  ask wrap st r = ((some (wrap r.0.0), r.0.1), record st { world = r.1 })

  -- `var ps T; if err := json.Unmarshal(params, &ps); err != nil { return nil, invalid params }`
  abbrev pub with_params :
      {A : Type 0} → (String → Option A) → Raw → State W S → (A → Outcome W S) → Outcome W S
  with_params decode params st use_params = elim (unmarshal decode params) [
    | none ↦ (fail_with (new_rpc_error err_invalid_params none), st)
    | some ps ↦ use_params ps
  ]

-- pkg/wmp/methods.go, `ValidateCredentialNotification`; `none` is a valid message.
unfoldable pub validate_credential_notification :
    Codec → CredentialNotificationParams → Option RpcError
validate_credential_notification c ps =
    if str_eq ps.flow_id ""
    then some (new_rpc_error err_invalid_params (reason c "flow_id is required"))
    else if str_eq ps.notification_id ""
    then some (new_rpc_error err_invalid_params (reason c "notification_id is required"))
    else if not (is_valid_credential_event ps.event)
    then some (
        new_rpc_error err_invalid_params
          (reason c (String.◌++◌ "unsupported credential event: " ps.event)))
    else none

-- The cases of the switch.
pub data Route : Type 0 where
  session_create : Route
  session_resume : Route
  session_close : Route
  session_authenticate : Route
  message_deliver : Route
  message_ack : Route
  message_status : Route
  message_poll : Route
  capability_update : Route
  capability_list : Route
  flow_start : Route
  flow_progress : Route
  flow_action : Route
  flow_complete : Route
  flow_error : Route
  flow_cancel : Route
  resolve : Route
  credential_notification : Route
  custom_method : Route

unfoldable pub route : String → Route
route method =
    if str_eq method "wmp.session.create"
    then Route.session_create
    else if str_eq method "wmp.session.resume"
    then Route.session_resume
    else if str_eq method "wmp.session.close"
    then Route.session_close
    else if str_eq method "wmp.session.authenticate"
    then Route.session_authenticate
    else if str_eq method "wmp.message.deliver"
    then Route.message_deliver
    else if str_eq method "wmp.message.ack"
    then Route.message_ack
    else if str_eq method "wmp.message.status"
    then Route.message_status
    else if str_eq method "wmp.message.poll"
    then Route.message_poll
    else if str_eq method "wmp.capability.update"
    then Route.capability_update
    else if str_eq method "wmp.capability.list"
    then Route.capability_list
    else if str_eq method "wmp.flow.start"
    then Route.flow_start
    else if str_eq method "wmp.flow.progress"
    then Route.flow_progress
    else if str_eq method "wmp.flow.action"
    then Route.flow_action
    else if str_eq method "wmp.flow.complete"
    then Route.flow_complete
    else if str_eq method "wmp.flow.error"
    then Route.flow_error
    else if str_eq method "wmp.flow.cancel"
    then Route.flow_cancel
    else if str_eq method "wmp.resolve"
    then Route.resolve
    else if str_eq method "wmp.credential.notification"
    then Route.credential_notification
    else custom_method

-- The session that `SessionCreate` describes.
abbrev pub described : SessionCreateParams → SessionCreateResult → Session
described ps r = record {
  id = r.wmp.session_id;
  participants = ps.participants;
  capabilities = r.capabilities;
  security = r.security;
  metadata = none;
  resumption_token = r.resumption_token;
  created_at = 0;
  expires_at = 0;
}

-- `if err == nil && result != nil { trackFlow }`
abbrev pub track_started :
    {W : Type 0} → FlowHandler W → String → Returned FlowStartResult → Registry W → Registry W
track_started fh id (some r, none) reg = track_flow id fh reg
track_started fh id (some r, some e) reg = reg
track_started fh id (none, e) reg = reg

abbrev pub untrack : {W S : Type 0} → String → State W S → State W S
untrack id st = record st { registry = untrack_flow id st.registry }

module _ {W S : Type 0} (c : Codec) (d : Structs) (store : SessionStore S) (h : Handler W) where
  -- The hooks, and the creation of the session, whose error is dropped.
  unfoldable pub store_session :
      Context → SessionCreateParams → SessionCreateResult → S → State W S → Outcome W S
  store_session ctx ps r sessions st =
      let (e, sess, w) =
        run_session_create_hooks st.registry.session_hooks ctx (described ps r) ps st.world in
      elim e [
        | some failure ↦ ((none, some (as_failure (to_rpc_error failure))), record st { world = w })
        | none ↦ (
          (some (session_created (some r)), none),
          record st { world = w; sessions = some (store.create sess sessions).0 },
        )
      ]

  -- After the handler has returned without an error.
  unfoldable pub session_answer :
      Context → SessionCreateParams → Option SessionCreateResult → State W S → Outcome W S
  session_answer ctx ps none st = ((some (session_created none), none), st)
  session_answer ctx ps (some r) st = elim st.sessions [
    | none ↦ ((some (session_created (some r)), none), st)
    | some sessions ↦
        if not (str_eq r.wmp.session_id "")
        then store_session ctx ps r sessions st
        else ((some (session_created (some r)), none), st)
  ]

  unfoldable pub on_session_create : Context → SessionCreateParams → State W S → Outcome W S
  on_session_create ctx ps st =
      if not (is_supported_version ps.wmp.version)
      then (fail_with unsupported_version, st)
      else let r = h.session_create ctx ps st.world in
        let st' : State W S = record st { world = r.1 } in
        elim r.0.1 [ some e ↦ ((none, some e), st') | none ↦ session_answer ctx ps r.0.0 st' ]

  unfoldable pub on_session_resume : Context → SessionResumeParams → State W S → Outcome W S
  on_session_resume ctx ps st =
      if not (is_supported_version ps.wmp.version)
      then (fail_with unsupported_version, st)
      else ask session_resumed st (h.session_resume ctx ps st.world)

  unfoldable pub on_flow_start : Context → FlowStartParams → State W S → Outcome W S
  on_flow_start ctx ps st = elim (lookup_flow_handler ps.flow_type st.registry) [
    | some fh ↦
        let r = fh.start_flow ctx ps st.world in
        (
          (some (flow_started r.0.0), r.0.1),
          record st { world = r.1; registry = track_started fh ps.flow_id r.0 st.registry },
        )
    | none ↦ ask flow_started st (h.flow_start ctx ps st.world)
  ]

  unfoldable pub on_flow_progress : Context → FlowProgressParams → State W S → Outcome W S
  on_flow_progress ctx ps st = elim (lookup_flow_owner ps.flow_id st.registry) [
    | some fh ↦ tell st (fh.handle_progress ctx ps st.world)
    | none ↦ tell st (h.flow_progress ctx ps st.world)
  ]

  unfoldable pub on_flow_action : Context → FlowActionParams → State W S → Outcome W S
  on_flow_action ctx ps st = elim (lookup_flow_owner ps.flow_id st.registry) [
    | some fh ↦ ask flow_acted st (fh.handle_action ctx ps st.world)
    | none ↦ ask flow_acted st (h.flow_action ctx ps st.world)
  ]

  unfoldable pub on_flow_complete : Context → FlowCompleteParams → State W S → Outcome W S
  on_flow_complete ctx ps st = elim (lookup_flow_owner ps.flow_id st.registry) [
    | some fh ↦ tell (untrack ps.flow_id st) (fh.handle_complete ctx ps st.world)
    | none ↦ tell st (h.flow_complete ctx ps st.world)
  ]

  unfoldable pub on_flow_error : Context → FlowErrorParams → State W S → Outcome W S
  on_flow_error ctx ps st = elim (lookup_flow_owner ps.flow_id st.registry) [
    | some fh ↦ tell (untrack ps.flow_id st) (fh.handle_error ctx ps st.world)
    | none ↦ tell st (h.flow_error ctx ps st.world)
  ]

  unfoldable pub on_flow_cancel : Context → FlowCancelParams → State W S → Outcome W S
  on_flow_cancel ctx ps st = elim (lookup_flow_owner ps.flow_id st.registry) [
    | some fh ↦ ask flow_cancelled (untrack ps.flow_id st) (h.flow_cancel ctx ps st.world)
    | none ↦ ask flow_cancelled st (h.flow_cancel ctx ps st.world)
  ]

  unfoldable pub on_resolve : Context → ResolveParams → State W S → Outcome W S
  on_resolve ctx ps st = elim (lookup_resolver ps.type st.registry) [
    | some rh ↦ ask resolved st (rh.handle_resolve ctx ps st.world)
    | none ↦ ask resolved st (h.resolve ctx ps st.world)
  ]

  unfoldable pub on_credential_notification : Context → Raw → State W S → Outcome W S
  unfolding validate_credential_notification
  on_credential_notification ctx params st = elim h.credential_notification [
    | none ↦ (fail_with (new_rpc_error err_method_not_found none), st)
    | some notify ↦ with_params d.credential_notification params st λ ps.
        elim (validate_credential_notification c ps) [
          | some e ↦ (fail_with e, st)
          | none ↦ tell st (notify ctx ps st.world)
        ]
  ]

  unfoldable pub on_custom_method : Context → String → Raw → State W S → Outcome W S
  on_custom_method ctx method params st = elim (lookup_method method st.registry) [
    | some mh ↦
        let r = mh.handle_method ctx method params st.world in (r.0, record st { world = r.1 })
    | none ↦ (fail_with (new_rpc_error err_method_not_found none), st)
  ]

  -- What each case does.
  unfoldable pub run_route : Route → Context → String → Raw → State W S → Outcome W S
  run_route Route.session_create ctx method params st =
      with_params d.session_create params st (λ ps. on_session_create ctx ps st)
  run_route Route.session_resume ctx method params st =
      with_params d.session_resume params st (λ ps. on_session_resume ctx ps st)
  run_route Route.session_close ctx method params st =
      with_params d.session_close params st (λ ps. tell st (h.session_close ctx ps st.world))
  run_route Route.session_authenticate ctx method params st =
      with_params d.session_authenticate params st
        (λ ps. ask session_authenticated st (h.session_authenticate ctx ps st.world))
  run_route Route.message_deliver ctx method params st =
      with_params d.message_deliver params st (λ ps. tell st (h.message_deliver ctx ps st.world))
  run_route Route.message_ack ctx method params st =
      with_params d.message_ack params st (λ ps. tell st (h.message_ack ctx ps st.world))
  run_route Route.message_status ctx method params st =
      with_params d.message_status params st (λ ps. tell st (h.message_status ctx ps st.world))
  run_route Route.message_poll ctx method params st =
      with_params d.message_poll params st
        (λ ps. ask message_polled st (h.message_poll ctx ps st.world))
  run_route Route.capability_update ctx method params st =
      with_params d.capability_update params st
        (λ ps. ask capability_updated st (h.capability_update ctx ps st.world))
  run_route Route.capability_list ctx method params st =
      with_params d.capability_list params st
        (λ ps. ask capability_listed st (h.capability_list ctx ps st.world))
  run_route Route.flow_start ctx method params st =
      with_params d.flow_start params st (λ ps. on_flow_start ctx ps st)
  run_route Route.flow_progress ctx method params st =
      with_params d.flow_progress params st (λ ps. on_flow_progress ctx ps st)
  run_route Route.flow_action ctx method params st =
      with_params d.flow_action params st (λ ps. on_flow_action ctx ps st)
  run_route Route.flow_complete ctx method params st =
      with_params d.flow_complete params st (λ ps. on_flow_complete ctx ps st)
  run_route Route.flow_error ctx method params st =
      with_params d.flow_error params st (λ ps. on_flow_error ctx ps st)
  run_route Route.flow_cancel ctx method params st =
      with_params d.flow_cancel params st (λ ps. on_flow_cancel ctx ps st)
  run_route Route.resolve ctx method params st =
      with_params d.resolve params st (λ ps. on_resolve ctx ps st)
  run_route Route.credential_notification ctx method params st =
      on_credential_notification ctx params st
  run_route Route.custom_method ctx method params st = on_custom_method ctx method params st

  unfoldable pub dispatch_method : Context → String → Raw → State W S → Outcome W S
  unfolding run_route
  dispatch_method ctx method params st = run_route (route method) ctx method params st
