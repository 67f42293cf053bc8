-- ===== src/FlowContext/Actions.antt =====
-- What holds of every history of the flow profile.
use go_wmp.Prelude.Maps.{lookup-erase_self}
use go_wmp.FlowContext.Routing.{
  end-IsRouted, ends, wait-IsRouted, waits, discard-IsRouted, discard-IsRouted, discards,
  deliver-IsRouted, delivers, cancel-IsRouted, cancels, act-IsRouted, acts, start-IsRouted, starts,
  IsRouted, Event, run, step,
}
use go_wmp.Prelude.{◌∙◌, ap, ◌+◌, ◌≡◌, ◌≤◌, List, [], ◌∷◌, All, length, true, arith, ℕ, some, none}
use go_wmp.FlowContext.{
  set, false, FlowActionParams, FlowStartParams, handle_action, end_goroutine, Map, new_flows,
  start_flow, Codec, Flows,
}
use go_wmp.Prelude.Maps.{lookup, insert, erase}

module _ {F : Type 0} (c : Codec) where
  step-IsRouted : (e : Event) (s : Flows F) → IsRouted s → IsRouted (step c e s)
  unfolding step
  step-IsRouted (starts ps) s v = start-IsRouted c ps s v
  step-IsRouted (acts ps) s v = act-IsRouted c ps s v
  step-IsRouted (cancels id) s v = cancel-IsRouted id s v
  step-IsRouted (delivers n) s v = deliver-IsRouted n s v
  step-IsRouted (discards n) s v = discard-IsRouted n s v
  step-IsRouted (waits n) s v = wait-IsRouted n s v
  step-IsRouted (ends n) s v = end-IsRouted n s v

  run-IsRouted : (es : List Event) (s : Flows F) → IsRouted s → IsRouted (run c es s)
  unfolding run
  run-IsRouted [] s v = v
  run-IsRouted (e ∷ es) s v = run-IsRouted es (step c e s) (step-IsRouted e s v)

  new-IsRouted : (handlers : Map F) → IsRouted (new_flows handlers)
  unfolding new_flows lookup
  new-IsRouted handlers = record {
    entries = λ id n there. cc;
    routed_right = tt;
    queued_right = λ n. tt;
    bounded = λ n. omega arith;
  }

  -- In every history of a new profile, each action in the channel of a flow's context names that
  -- flow, and the channel holds ten actions at most: also when flows end and restart under the same
  -- id while actions are on their way.
  pub actions_reach_their_flow :
      (handlers : Map F) (es : List Event) (n : ℕ)
      → let s = run c es (new_flows handlers) in
        All (λ a. s.flow_id n ≡ a.flow_id) (s.actions n) × (length (s.actions n) ≤ 10)
  actions_reach_their_flow handlers es n =
      let v = run-IsRouted es (new_flows handlers) (new-IsRouted handlers) in
      (v.queued_right n, v.bounded n)

  abbrev started : FlowStartParams → Flows F → Flows F
  started ps s = record s {
    flows = insert ps.flow_id s.next s.flows;
    flow_id = set s.next ps.flow_id s.flow_id;
    actions = set s.next [] s.actions;
    done = set s.next false s.done;
    running = set s.next true s.running;
    next = s.next + 1;
  }

  start_flow-started :
      (ps : FlowStartParams) (fn : F) (s : Flows F)
      → lookup ps.flow_type s.handlers ≡ some fn
      → (start_flow c ps s).1 ≡ started ps s
  unfolding start_flow
  start_flow-started ps fn s known = simp (known, start_flow)

  end_goroutine-of_running :
      (n : ℕ) (s : Flows F)
      → s.running n ≡ true
      → end_goroutine n s ≡ record s {
        flows = erase (s.flow_id n) s.flows;
        done = set n true s.done;
        running = set n false s.running;
      }
  unfolding end_goroutine
  end_goroutine-of_running n s alive = simp (alive, end_goroutine)

  handle_action-not_found :
      (act : FlowActionParams) (s : Flows F)
      → lookup act.flow_id s.flows ≡ none
      → (handle_action c act s).0.0 ≡ none
  unfolding handle_action
  handle_action-not_found act s gone = simp (gone, handle_action)

  -- When a flow is started again under its id and the goroutine of the first start ends, the flow's
  -- actions are answered with an error, although the second goroutine runs and is not done.
  pub restart_loses_flow :
      (ps : FlowStartParams) (fn : F) (act : FlowActionParams) (s : Flows F)
      → lookup ps.flow_type s.handlers ≡ some fn
      → act.flow_id ≡ ps.flow_id
      → let twice = (start_flow c ps (start_flow c ps s).1).1 in
        let after = end_goroutine s.next twice in
        ((handle_action c act after).0.0 ≡ none)
        × (after.running (s.next + 1) ≡ true)
        × (after.done (s.next + 1) ≡ false)
  restart_loses_flow ps fn act s known same =
      let t : Flows F = started ps (started ps s) in
      let twice : (start_flow c ps (start_flow c ps s).1).1 ≡ t =
        ap (λ x. (start_flow c ps x).1) (start_flow-started ps fn s known)
        ∙ start_flow-started ps fn (started ps s) known in
      let alive : t.running s.next ≡ true = ground arith in
      let named : t.flow_id s.next ≡ ps.flow_id = ground arith in
      let gone : lookup act.flow_id (erase (t.flow_id s.next) t.flows) ≡ none =
        rw (named, same) (lookup-erase_self ps.flow_id t.flows) in
      rw (twice, end_goroutine-of_running s.next t alive)
        (handle_action-not_found act _ gone, ground arith, ground arith)
