-- ===== src/Channel/Examples.antt =====
-- Tests of the channel transport.
use go_wmp.Prelude.{◌⊎◌, refl, String, false, List, [], ◌∷◌, arith}
use go_wmp.Channel.{
  ChannelTransport, new_channel_transport, Action, pushes, push_fails, reads, push_full, push_sent,
  read_received, Step, Reach, here, next,
}
use go_wmp.Channel.Order.{IsInOrder, channels-IsInOrder, push_returns}

abbrev holding : List String → ChannelTransport
holding q = record { incoming = q; outgoing = []; in_size = 1; out_size = 1; is_closed = false }

-- The second push finds the channel full.
abbrev history : List Action
history = reads "a" ∷ push_fails "b" ∷ pushes "a" ∷ []

history-Reach : Reach (new_channel_transport 1 1) history (holding [])
unfolding new_channel_transport
history-Reach =
    next
      (next (next here (push_sent (holding []) "a" (omega arith)))
        (push_full (holding ("a" ∷ [])) "b" refl (omega arith)))
      (read_received (holding ("a" ∷ [])) "a" [] refl)

channels-IsInOrder_example : IsInOrder 1 1 history (holding [])
channels-IsInOrder_example = channels-IsInOrder 1 1 history (holding []) history-Reach

push_returns_example :
    (((u : ChannelTransport) × Step (holding []) (pushes "c") u)
      ⊎ Step (holding []) (push_fails "c") (holding []))
push_returns_example =
    (push_returns (new_channel_transport 1 1) (holding []) history "c" history-Reach).0
