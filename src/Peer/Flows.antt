-- ===== src/Peer/Flows.antt =====
-- The flows in the registry: who owns a flow, and which calls its messages make.
use go_wmp.Session.{SessionStore}
use go_wmp.Profile.{FlowHandler}
use go_wmp.Types.Flow.{FlowStartResult}
use go_wmp.Peer.Dispatch.{
  track_started, on_flow_cancel, on_flow_error, on_flow_complete, on_flow_progress, on_flow_start,
  Outcome,
}
use go_wmp.Jsonrpc.{Codec}
use go_wmp.Registry.{lookup_flow_handler, track_flow, untrack_flow, lookup_flow_owner}
use go_wmp.Prelude.{
  ◌∙◌, eq_iff, if◌then◌else◌, none, some, ◌≡◌, refl, Bool-cases, Option-cases, inl, inr, Bool,
  false, true, String,
}
use go_wmp.Prelude.Maps.{lookup-insert, lookup-erase}
use text.Mathlib.Text.{◌==◌}
use text.Mathlib.TextPositions.{eq_refl}
use go_wmp.Peer.{
  FlowCancelParams, FlowErrorParams, FlowCompleteParams, FlowProgressParams, FlowStartParams,
  Context, Handler, Structs, Returned, State, Registry,
}

module _ {W : Type 0} where
  owner_of_tracked :
      (id : String) (fh : FlowHandler W) (reg : Registry W) (j : String)
      → lookup_flow_owner j (track_flow id fh reg)
        ≡ (if id == j then some fh else lookup_flow_owner j reg)
  unfolding lookup_flow_owner track_flow
  owner_of_tracked id fh reg j = lookup-insert id j fh reg.flow_owners

  owner_of_untracked :
      (id : String) (reg : Registry W) (j : String)
      → lookup_flow_owner j (untrack_flow id reg)
        ≡ (if id == j then none else lookup_flow_owner j reg)
  unfolding lookup_flow_owner untrack_flow
  owner_of_untracked id reg j = lookup-erase id j reg.flow_owners

  -- Without an owner there is nothing to erase.
  owner_of_unowned :
      (id : String) (reg : Registry W) (j : String)
      → lookup_flow_owner id reg ≡ none
      → lookup_flow_owner j reg ≡ (if id == j then none else lookup_flow_owner j reg)
  owner_of_unowned id reg j free = elim (Bool-cases (id == j)) [
    | inl same ↦ rw same (let e : id ≡ j = (eq_iff id j).0 same in rw e at free)
    | inr other ↦ rw other refl
  ]

-- Afterwards the flow has no owner, and the owners of the others are the same.
abbrev pub EndsFlow : {W S : Type 0} → String → State W S → Outcome W S → Type 0
EndsFlow id st o =
    (j : String)
    → lookup_flow_owner j o.1.registry ≡ (if id == j then none else lookup_flow_owner j st.registry)

-- A flow was started: there are a result and no error.
abbrev pub has_started : Returned FlowStartResult → Bool
has_started (some r, none) = true
has_started (some r, some e) = false
has_started (none, e) = false

module _ {W S : Type 0} (c : Codec) (d : Structs) (store : SessionStore S) (h : Handler W)
    (ctx : Context) (st : State W S) where
  progress_of_owned :
      (news : FlowProgressParams) (fh : FlowHandler W)
      → lookup_flow_owner news.flow_id st.registry ≡ some fh
      → (on_flow_progress c d store h ctx news st).1.world ≡ fh.handle_progress ctx news st.world
  unfolding on_flow_progress
  progress_of_owned news fh owned = rw (owned, on_flow_progress) refl

  progress_of_unowned :
      (news : FlowProgressParams)
      → lookup_flow_owner news.flow_id st.registry ≡ none
      → (on_flow_progress c d store h ctx news st).1.world ≡ h.flow_progress ctx news st.world
  unfolding on_flow_progress
  progress_of_unowned news free = rw (free, on_flow_progress) refl

  complete_of_owned :
      (done : FlowCompleteParams) (fh : FlowHandler W)
      → lookup_flow_owner done.flow_id st.registry ≡ some fh
      → (on_flow_complete c d store h ctx done st).1.world ≡ fh.handle_complete ctx done st.world
  unfolding on_flow_complete
  complete_of_owned done fh owned = rw (owned, on_flow_complete) refl

  -- A handler that is registered for the flow's type becomes the owner of the flow when it returns a
  -- result and no error; otherwise all owners stay, the one of a running flow with that id included.
  pub on_flow_start-owner :
      (ps : FlowStartParams) (fh : FlowHandler W)
      → lookup_flow_handler ps.flow_type st.registry ≡ some fh
      → (j : String)
      → lookup_flow_owner j (on_flow_start c d store h ctx ps st).1.registry ≡ (
          if has_started (fh.start_flow ctx ps st.world).0
          then (if ps.flow_id == j then some fh else lookup_flow_owner j st.registry)
          else lookup_flow_owner j st.registry)
  unfolding on_flow_start
  on_flow_start-owner ps fh found j =
      rw (found, on_flow_start) (go (fh.start_flow ctx ps st.world).0)
    where
      go :
          (r : Returned FlowStartResult)
          → lookup_flow_owner j (track_started fh ps.flow_id r st.registry) ≡ (
              if has_started r
              then (if ps.flow_id == j then some fh else lookup_flow_owner j st.registry)
              else lookup_flow_owner j st.registry)
      go (some r, none) = owner_of_tracked ps.flow_id fh st.registry j
      go (some r, some e) = refl
      go (none, e) = refl

  on_flow_complete-EndsFlow :
      (done : FlowCompleteParams)
      → EndsFlow done.flow_id st (on_flow_complete c d store h ctx done st)
  unfolding on_flow_complete
  on_flow_complete-EndsFlow done j =
      elim (Option-cases (lookup_flow_owner done.flow_id st.registry)) [
        | inl free ↦ rw (free, on_flow_complete) (owner_of_unowned done.flow_id st.registry j free)
        | inr (fh, owned) ↦
            rw (owned, on_flow_complete) (owner_of_untracked done.flow_id st.registry j)
      ]

  on_flow_error-EndsFlow :
      (failed : FlowErrorParams)
      → EndsFlow failed.flow_id st (on_flow_error c d store h ctx failed st)
  unfolding on_flow_error
  on_flow_error-EndsFlow failed j =
      elim (Option-cases (lookup_flow_owner failed.flow_id st.registry)) [
        | inl free ↦ rw (free, on_flow_error) (owner_of_unowned failed.flow_id st.registry j free)
        | inr (fh, owned) ↦
            rw (owned, on_flow_error) (owner_of_untracked failed.flow_id st.registry j)
      ]

  on_flow_cancel-EndsFlow :
      (stopped : FlowCancelParams)
      → EndsFlow stopped.flow_id st (on_flow_cancel c d store h ctx stopped st)
  unfolding on_flow_cancel
  on_flow_cancel-EndsFlow stopped j =
      elim (Option-cases (lookup_flow_owner stopped.flow_id st.registry)) [
        | inl free ↦ rw (free, on_flow_cancel) (owner_of_unowned stopped.flow_id st.registry j free)
        | inr (fh, owned) ↦
            rw (owned, on_flow_cancel) (owner_of_untracked stopped.flow_id st.registry j)
      ]

  -- flow.complete, flow.error and flow.cancel leave the flow without an owner, whether it had one or
  -- not, and the owners of the other flows as they are.
  pub flow_end-EndsFlow :
      (done : FlowCompleteParams) (failed : FlowErrorParams) (stopped : FlowCancelParams)
      → EndsFlow done.flow_id st (on_flow_complete c d store h ctx done st)
        × EndsFlow failed.flow_id st (on_flow_error c d store h ctx failed st)
        × EndsFlow stopped.flow_id st (on_flow_cancel c d store h ctx stopped st)
  flow_end-EndsFlow done failed stopped = (
    on_flow_complete-EndsFlow done,
    on_flow_error-EndsFlow failed,
    on_flow_cancel-EndsFlow stopped,
  )

module _ {W S : Type 0} (c : Codec) (d : Structs) (store : SessionStore S) (h : Handler W)
    (ctx : Context) (st : State W S) where
  -- Once a registered handler has started a flow, a progress message and the completion of that flow
  -- go to this handler; after the completion a further progress message goes to the peer's handler.
  pub flow_lifecycle :
      (ps : FlowStartParams) (fh : FlowHandler W) (r : FlowStartResult) (news : FlowProgressParams)
      (done : FlowCompleteParams)
      → lookup_flow_handler ps.flow_type st.registry ≡ some fh
      → (fh.start_flow ctx ps st.world).0 ≡ (some r, none)
      → news.flow_id ≡ ps.flow_id
      → done.flow_id ≡ ps.flow_id
      → let started = (on_flow_start c d store h ctx ps st).1 in
        let ended = (on_flow_complete c d store h ctx done started).1 in
        ((on_flow_progress c d store h ctx news started).1.world
          ≡ fh.handle_progress ctx news started.world)
        × (ended.world ≡ fh.handle_complete ctx done started.world)
        × ((on_flow_progress c d store h ctx news ended).1.world
            ≡ h.flow_progress ctx news ended.world)
  flow_lifecycle ps fh r news done found good same same' =
      let started : State W S = (on_flow_start c d store h ctx ps st).1 in
      let ended : State W S = (on_flow_complete c d store h ctx done started).1 in
      let owned : lookup_flow_owner ps.flow_id started.registry ≡ some fh =
        on_flow_start-owner c d store h ctx st ps fh found ps.flow_id
        ∙ rw (good, eq_refl ps.flow_id) refl in
      let released : lookup_flow_owner ps.flow_id ended.registry ≡ none =
        on_flow_complete-EndsFlow c d store h ctx started done ps.flow_id
        ∙ rw (same', eq_refl ps.flow_id) refl in
      (
        progress_of_owned c d store h ctx started news fh (rw same owned),
        complete_of_owned c d store h ctx started done fh (rw same' owned),
        progress_of_unowned c d store h ctx ended news (rw same released),
      )
