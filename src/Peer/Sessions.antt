-- ===== src/Peer/Sessions.antt =====
-- wmp.session.create: the version check, the hooks and the store.
use go_wmp.Errors.{err_version_not_supported, err_internal_error}
use go_wmp.Types.Session.{SessionCreateParams, SessionCreateResult}
use go_wmp.Jsonrpc.{Codec, RpcError, new_rpc_error}
use go_wmp.Session.{Session, SessionStore}
use go_wmp.Context.{Context}
use go_wmp.Profile.{Failure, rpc, nil_rpc, other, SessionHook, Handler, session_created}
use go_wmp.Registry.{run_session_create_hooks}
use go_wmp.Peer.{
  Structs, State, to_rpc_error, as_failure, is_supported_version, is_supported_version_lem,
}
use go_wmp.Peer.Dispatch.{
  Outcome, unsupported_version, store_session, session_answer, on_session_create, described,
}
use go_wmp.Prelude.{
  Option, List, [], ◌∷◌, ap, true, false, none, some, ◌≡◌, ◌≢◌, refl, str_eq, sym, ◌∙◌, ◌⊎◌, inl,
  inr, Option-cases, Bool-cases, arith, eq_iff, subst,
}

-- A run of hooks on a session: each gets the session and the state as the one before it left them, and
-- the first that fails ends the run with its error.
pub data HookRun {W : Type 0} (ctx : Context) (ps : SessionCreateParams)
    : List (SessionHook W) → Session → W → Option Failure → Session → W → Type 0 where
  all_passed : (s : Session) (w : W) → HookRun ctx ps [] s w none s w
  failed :
      (h : SessionHook W) (hooks : List (SessionHook W)) (s s' : Session) (w w' : W) (e : Failure)
      → h.on_session_create ctx s ps w ≡ (some e, s', w')
      → HookRun ctx ps (h ∷ hooks) s w (some e) s' w'
  passed :
      (h : SessionHook W) (hooks : List (SessionHook W)) (s s' s'' : Session) (w w' w'' : W)
      (e : Option Failure)
      → h.on_session_create ctx s ps w ≡ (none, s', w')
      → HookRun ctx ps hooks s' w' e s'' w''
      → HookRun ctx ps (h ∷ hooks) s w e s'' w''

run_session_create_hooks-HookRun :
    {W : Type 0} (hooks : List (SessionHook W)) (ctx : Context) (s : Session)
    (ps : SessionCreateParams) (w : W)
    → let r = run_session_create_hooks hooks ctx s ps w in HookRun ctx ps hooks s w r.0 r.1 r.2
unfolding run_session_create_hooks
run_session_create_hooks-HookRun [] ctx s ps w = all_passed s w
run_session_create_hooks-HookRun (h ∷ hooks) ctx s ps w =
    let r = h.on_session_create ctx s ps w in
    let later = run_session_create_hooks-HookRun hooks ctx r.1 ps r.2 in
    elim (Option-cases r.0) [
      | inl fine ↦
          rw (fine, run_session_create_hooks)
            (passed h hooks s r.1 _ w r.2 _ _ (ap (λ e. (e, r.1, r.2)) fine) later)
      | inr (e, bad) ↦
          rw (bad, run_session_create_hooks)
            (failed h hooks s r.1 w r.2 e (ap (λ x. (x, r.1, r.2)) bad))
    ]

-- A hook's error as the client gets it: an `*RPCError` as it is, another one as an internal error.
abbrev pub answered_error : Failure → Failure
answered_error (rpc e) = rpc e
answered_error nil_rpc = nil_rpc
answered_error (other text) = rpc (new_rpc_error err_internal_error none)

answered_error_lem : (e : Failure) → as_failure (to_rpc_error e) ≡ answered_error e
unfolding to_rpc_error
answered_error_lem (rpc e) = refl
answered_error_lem nil_rpc = refl
answered_error_lem (other text) = refl

-- The outcome when the handler has returned a result with a session id to a peer with a store, and left
-- the state `w`.
pub record IsHooked {W S : Type 0} (store : SessionStore S) (ctx : Context)
    (ps : SessionCreateParams) (r : SessionCreateResult) (st : State W S) (sessions : S) (w : W)
    (out : Outcome W S) : Type 0 where
  pub error : Option Failure
  pub session : Session
  pub world : W
  pub run :
      HookRun ctx ps st.registry.session_hooks
        (record {
          id = r.wmp.session_id;
          participants = ps.participants;
          capabilities = r.capabilities;
          security = r.security;
          metadata = none;
          resumption_token = r.resumption_token;
          created_at = 0;
          expires_at = 0;
        })
        w
        error
        session
        world
  pub stored :
      error ≡ none
      → out ≡ (
        (some (session_created (some r)), none),
        record st { world = world; sessions = some (store.create session sessions).0 },
      )
  pub stopped :
      (e : Failure)
      → error ≡ some e
      → out ≡ ((none, some (answered_error e)), record st { world = world })

abbrev or_this : {A : Type 0} → A → Option A → A
or_this a none = a
or_this a (some b) = b

-- The result gives no session to keep, or the peer has no store.
abbrev pub IsUnkept : {S : Type 0} → Option SessionCreateResult → Option S → Type 0
IsUnkept result sessions =
    (result ≡ none)
    ⊎ (sessions ≡ none)
    ⊎ ((r : SessionCreateResult) × (result ≡ some r) × (r.wmp.session_id ≡ ""))

module _ {W S : Type 0} (c : Codec) (d : Structs) (store : SessionStore S) (h : Handler W)
    (ctx : Context) (ps : SessionCreateParams) (st : State W S) where
  store_session-IsHooked :
      (r : SessionCreateResult) (sessions : S) (w : W)
      → IsHooked store ctx ps r st sessions w
          (store_session c d store h ctx ps r sessions (record st { world = w }))
  unfolding store_session
  store_session-IsHooked r sessions w =
      let ran = run_session_create_hooks st.registry.session_hooks ctx (described ps r) ps w in
      record {
        error = ran.0;
        session = ran.1;
        world = ran.2;
        run = run_session_create_hooks-HookRun st.registry.session_hooks ctx (described ps r) ps w;
        stored = λ passed. rw (passed, store_session) refl;
        stopped = λ e bad. rw (bad, store_session, answered_error_lem e) refl;
      }

  kept :
      (r : SessionCreateResult) (sessions : S) (w : W)
      → st.sessions ≡ some sessions
      → str_eq r.wmp.session_id "" ≡ false
      → session_answer c d store h ctx ps (some r) (record st { world = w })
        ≡ store_session c d store h ctx ps r sessions (record st { world = w })
  unfolding session_answer
  kept r sessions w there named =
      rw (there, named, session_answer)
        (ap
          (λ x.
            store_session c d store h ctx ps r sessions
              (record { registry = st.registry; sessions = x; world = w }))
          there)

  stays :
      (r : SessionCreateResult) (w : W) (sessions : Option S)
      → st.sessions ≡ sessions
      → ◌≡◌ {A = Outcome W S}
          ((some (session_created (some r)), none), record st { world = w })
          (
            (some (session_created (some r)), none),
            record { registry = st.registry; sessions = sessions; world = w },
          )
  stays r w sessions e =
      ap
        (λ x. (
          (some (session_created (some r)), none),
          record { registry = st.registry; sessions = x; world = w },
        ))
        e

  unkept :
      (result : Option SessionCreateResult) (w : W)
      → IsUnkept result st.sessions
      → session_answer c d store h ctx ps result (record st { world = w })
        ≡ ((some (session_created result), none), record st { world = w })
  unfolding session_answer
  unkept none w why = refl
  unkept (some r) w (inl nothing) = absurd (cc nothing)
  unkept (some r) w (inr (inl without)) = rw (without, session_answer) (stays r w _ without)
  unkept (some r) w (inr (inr (r', same, empty))) =
      let named : str_eq r.wmp.session_id "" ≡ true =
        (eq_iff r.wmp.session_id "").1 (ap (λ x. (or_this r x).wmp.session_id) same ∙ empty) in
      elim (Option-cases st.sessions) [
        | inl without ↦ rw (without, session_answer) (stays r w _ without)
        | inr (s, there) ↦ rw (there, named, session_answer) (stays r w _ there)
      ]

  answers :
      ps.wmp.version ≡ "0.1"
      → let r = h.session_create ctx ps st.world in
        let st' : State W S = record st { world = r.1 } in
        on_session_create c d store h ctx ps st ≡ elim r.0.1 [
          | some e ↦ ((none, some e), st')
          | none ↦ session_answer c d store h ctx ps r.0.0 st'
        ]
  unfolding on_session_create
  answers current =
      let supported : is_supported_version ps.wmp.version ≡ true =
        is_supported_version_lem ps.wmp.version ∙ (eq_iff "0.1" ps.wmp.version).1 (sym current) in
      rw (supported, on_session_create) refl

  rejects :
      ps.wmp.version ≢ "0.1"
      → on_session_create c d store h ctx ps st ≡ ((none, some (rpc unsupported_version)), st)
  unfolding on_session_create
  rejects old = elim (Bool-cases (is_supported_version ps.wmp.version)) [
    | inr unsupported ↦ rw (unsupported, on_session_create) refl
    | inl supported ↦ absurd (
        old (
          sym (
            (eq_iff "0.1" ps.wmp.version).0
              (sym (is_supported_version_lem ps.wmp.version) ∙ supported))))
  ]

  -- A version other than 0.1 is answered with code -31013, and nothing else happens. Otherwise the
  -- handler is called. Its error is the answer; a result that gives no session to keep is answered
  -- as it is. A result with a session id, on a peer with a store, makes a session of it and of the
  -- parameters, which goes through the hooks in the order of the registry, each on what the one before left: if all
  -- pass, the session as they leave it is stored and the result is the answer; the first one that
  -- fails ends the run, the store stays as it is and its error is the answer.
  pub on_session_create_stores :
      let returned = h.session_create ctx ps st.world in
      let out = on_session_create c d store h ctx ps st in
      (ps.wmp.version ≢ "0.1"
        → (e : RpcError) × (e.code ≡ err_version_not_supported)
          × (out ≡ ((none, some (rpc e)), st)))
      × (ps.wmp.version ≡ "0.1"
          → ((e : Failure)
              → returned.0.1 ≡ some e
              → out ≡ ((none, some e), record st { world = returned.1 }))
            × (returned.0.1 ≡ none
                → IsUnkept returned.0.0 st.sessions
                → out
                  ≡ ((some (session_created returned.0.0), none), record st { world = returned.1 }))
            × ((r : SessionCreateResult) (sessions : S)
                → returned.0 ≡ (some r, none)
                → st.sessions ≡ some sessions
                → r.wmp.session_id ≢ ""
                → IsHooked store ctx ps r st sessions returned.1 out))
  unfolding new_rpc_error
  on_session_create_stores = (
    λ old. (unsupported_version, refl, rejects old),
    λ current. (
      λ e failed. answers current ∙ rw failed refl,
      λ fine without.
          answers current ∙ rw fine (unkept (h.session_create ctx ps st.world).0.0 _ without),
      λ r sessions made there named.
          let w = (h.session_create ctx ps st.world).1 in
          let id : str_eq r.wmp.session_id "" ≡ false =
            ground (arith, eq_iff r.wmp.session_id "") in
          let same =
            answers current
            ∙ rw (ap (λ x. x.1) made, ap (λ x. x.0) made) (kept r sessions w there id) in
          subst (λ out. IsHooked store ctx ps r st sessions w out) (sym same)
            (store_session-IsHooked r sessions w),
    ),
  )
