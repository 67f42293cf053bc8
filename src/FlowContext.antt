-- ===== src/FlowContext.antt =====
-- pkg/wmp/flowcontext.go: the profile that runs each flow in a goroutine of its own. The contexts are
-- numbered as they are made. A section under the mutex is a step, with the close of `doneCh` that
-- follows it directly; the two arms of `deliverAction` are steps of their own, so that actions, ends
-- and restarts of flows interleave in any order. The notifications that a flow sends are left out.
pub mod Routing
pub mod Actions
mod Examples
use Prim.Native.String
use go_wmp.Prelude.{
  ℕ, ◌+◌, String, Bool, true, false, Option, none, some, List, [], ◌∷◌, ◌++◌, if◌then◌else◌, ltb,
  length, ◌==◌,
}
use go_wmp.Prelude.Maps.{Map, lookup, insert, erase}
use go_wmp.Peer.Calls.{set}
use go_wmp.Jsonrpc.{Codec, reason, new_rpc_error}
use go_wmp.Errors.{err_flow_error}
use go_wmp.Types.Envelope.{Metadata}
use go_wmp.Types.Flow.{FlowStartParams, FlowStartResult, FlowActionParams, FlowActionResult}
use go_wmp.Profile.{rpc, Returned}
use go_wmp.Relay.{version_only}

-- The profile and its contexts: `routed` holds the actions for which `HandleAction` has found the
-- context and not come through `deliverAction` yet; `actions` are the channels, of capacity ten.
pub record Flows (F : Type 0) : Type 0 where
  pub handlers : Map F
  pub flows : Map ℕ
  pub flow_id : ℕ → String
  pub actions : ℕ → List FlowActionParams
  pub done : ℕ → Bool
  pub running : ℕ → Bool
  pub routed : List (ℕ × FlowActionParams)
  pub next : ℕ

abbrev pub no_metadata : Metadata
no_metadata = record version_only { version = "" }

-- The first action for the context, and the other ones.
unfoldable pub take_action :
    ℕ → List (ℕ × FlowActionParams) → Option (FlowActionParams × List (ℕ × FlowActionParams))
take_action n [] = none
take_action n ((k, a) ∷ rs) =
    let rest = take_action n rs in
    if k == n
    then some (a, rs)
    else elim rest [ none ↦ none | some (x, xs) ↦ some (x, (k, a) ∷ xs) ]

module _ {F : Type 0} where
  unfoldable pub new_flows : Map F → Flows F
  new_flows handlers = record {
    handlers = handlers;
    flows = [];
    flow_id = λ _. "";
    actions = λ _. [];
    done = λ _. false;
    running = λ _. false;
    routed = [];
    next = 0;
  }

  unfoldable pub start_flow : Codec → FlowStartParams → Flows F → Returned FlowStartResult × Flows F
  start_flow c ps s = elim (lookup ps.flow_type s.handlers) [
    | none ↦ (
      (
        none,
        some (
            rpc (
              new_rpc_error err_flow_error
                (reason c (Prim.Native.String.◌++◌ "unknown flow type: " ps.flow_type)))),
      ),
      s,
    )
    | some fn ↦ (
      (some (record { wmp = no_metadata; flow_id = ps.flow_id; flow_type = ps.flow_type }), none),
      record s {
        flows = insert ps.flow_id s.next s.flows;
        flow_id = set s.next ps.flow_id s.flow_id;
        actions = set s.next [] s.actions;
        done = set s.next false s.done;
        running = set s.next true s.running;
        next = s.next + 1;
      },
    )
  ]

  -- Up to `deliverAction`, which the result does not depend on.
  unfoldable pub handle_action :
      Codec → FlowActionParams → Flows F → Returned FlowActionResult × Flows F
  handle_action c ps s = elim (lookup ps.flow_id s.flows) [
    | none ↦ (
      (
        none,
        some (
            rpc (
              new_rpc_error err_flow_error
                (reason c (Prim.Native.String.◌++◌ "flow not found: " ps.flow_id)))),
      ),
      s,
    )
    | some n ↦ (
      (
        some (record {
          wmp = no_metadata;
          flow_id = ps.flow_id;
          action = ps.action;
          status = "accepted";
        }),
        none,
      ),
      record s { routed = (n, ps) ∷ s.routed },
    )
  ]

  -- `fc.actionCh <- params`; a full channel makes it wait.
  unfoldable pub deliver_action : ℕ → Flows F → Flows F
  unfolding take_action
  deliver_action n s = elim (take_action n s.routed) [
    | none ↦ s
    | some (a, rest) ↦
        if ltb (length (s.actions n)) 10
        then record s { routed = rest; actions = set n (s.actions n ++ a ∷ []) s.actions }
        else s
  ]

  -- `<-fc.doneCh` in `deliverAction`.
  unfoldable pub discard_action : ℕ → Flows F → Flows F
  unfolding take_action
  discard_action n s = elim (take_action n s.routed) [
    | none ↦ s
    | some (a, rest) ↦ if s.done n then record s { routed = rest } else s
  ]

  -- `action := <-fc.actionCh` in `WaitForAction`.
  unfoldable pub wait_for_action : ℕ → Flows F → Option FlowActionParams × Flows F
  wait_for_action n s = elim (s.actions n) [
    | [] ↦ (none, s)
    | a ∷ rest ↦ (some a, record s { actions = set n rest s.actions })
  ]

  -- `HandleComplete`, `HandleError` and `CancelFlow`.
  unfoldable pub cancel_flow : String → Flows F → Flows F
  cancel_flow id s = elim (lookup id s.flows) [
    | none ↦ s
    | some n ↦ record s { flows = erase id s.flows; done = set n true s.done }
  ]

  -- The deferred function of the goroutine.
  unfoldable pub end_goroutine : ℕ → Flows F → Flows F
  end_goroutine n s =
      if s.running n
      then record s {
        flows = erase (s.flow_id n) s.flows;
        done = set n true s.done;
        running = set n false s.running;
      }
      else s

  unfoldable pub active_flows : Flows F → ℕ
  active_flows s = length s.flows
