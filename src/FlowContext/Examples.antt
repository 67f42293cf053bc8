-- ===== src/FlowContext/Examples.antt =====
-- Tests of the flow profile: a flow that is started, gets an action and is started again.
use go_wmp.FlowContext.Actions.{restart_loses_flow, actions_reach_their_flow}
use go_wmp.FlowContext.{handle_action, Map, end_goroutine, no_metadata, new_flows, start_flow}
use go_wmp.FlowContext.Routing.{ends, delivers, acts, starts, Event, run}
use go_wmp.Types.Flow.{FlowActionParams}
use go_wmp.Prelude.{◌≡◌, ◌≤◌, refl, ℕ, List, [], ◌∷◌, All, length, true, false, none, some}
use go_wmp.Prelude.Maps.{lookup}
use go_wmp.Fixtures.{codec, start}

abbrev accept : FlowActionParams
accept = record { wmp = no_metadata; flow_id = "f1"; action = "accept"; params = none }

abbrev issuing : Map ℕ
issuing = ("oid4vci", 5) ∷ []

abbrev history : List Event
history = starts start ∷ acts accept ∷ delivers 0 ∷ ends 0 ∷ starts start ∷ []

actions_reach_their_flow_example :
    let s = run codec history (new_flows issuing) in
    All (λ a. s.flow_id 0 ≡ a.flow_id) (s.actions 0) × (length (s.actions 0) ≤ 10)
actions_reach_their_flow_example = actions_reach_their_flow codec issuing history 0

oid4vci_known : lookup start.flow_type (new_flows issuing).handlers ≡ some 5
unfolding new_flows lookup
oid4vci_known = refl

restart_loses_flow_example :
    let twice = (start_flow codec start (start_flow codec start (new_flows issuing)).1).1 in
    let after = end_goroutine 0 twice in
    ((handle_action codec accept after).0.0 ≡ none)
    × (after.running 1 ≡ true)
    × (after.done 1 ≡ false)
unfolding new_flows
restart_loses_flow_example =
    restart_loses_flow codec start 5 accept (new_flows issuing) oid4vci_known refl
