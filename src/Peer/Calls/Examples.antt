-- ===== src/Peer/Calls/Examples.antt =====
-- Tests of the calls: a call that is answered.
use go_wmp.Peer.Calls.Delivery.{call_completes, calls_answered_once, delivery_never_blocks}
use go_wmp.Peer.Calls.Tokens.{tokens}
use go_wmp.Peer.Calls.{
  received, receives, lookup, sends_on_channel, sent, take_for, waiting, arrives, begins, initial,
  Event, run,
}
use go_wmp.Jsonrpc.{Response}
use go_wmp.Prelude.{◌≡◌, ◌≤◌, refl, List, [], ◌∷◌, none, some}

abbrev reply : Response
reply = record { jsonrpc = "2.0"; id = some "\"a\""; result = some "1"; error = none }

abbrev called : List Event
called = begins "a" ∷ sent 0 ∷ []

abbrev taken : List Event
taken = begins "a" ∷ sent 0 ∷ arrives "a" reply ∷ []

calls_answered_once_example : tokens 0 (run taken initial) ≤ 1
calls_answered_once_example = calls_answered_once taken 0

on_its_way : take_for 0 (run taken initial).inflight ≡ some (reply, [])
unfolding run initial take_for go_wmp.Prelude.Maps.lookup go_wmp.Prelude.Maps.insert
on_its_way = refl

delivery_never_blocks_example : (run taken initial).channel 0 ≡ none
delivery_never_blocks_example = delivery_never_blocks taken 0 reply [] on_its_way

call_waits : (run called initial).stage 0 ≡ waiting "a"
unfolding run initial
call_waits = refl

call_pending : lookup "a" (run called initial).pending ≡ some 0
unfolding run initial go_wmp.Prelude.Maps.lookup go_wmp.Prelude.Maps.insert
call_pending = refl

call_completes_example :
    (run (arrives "a" reply ∷ sends_on_channel 0 ∷ receives 0 ∷ []) (run called initial)).stage 0
    ≡ received reply
call_completes_example = call_completes called 0 "a" reply call_waits call_pending
