-- ===== src/Peer/Serve.antt =====
-- pkg/wmp/peer.go, `Serve` and `dispatch`: what the loop does with one message of the transport.
use Prim.Native.String.{String}
use go_wmp.Jsonrpc.Batch.{decode_batch}
use go_wmp.Errors.{err_parse_error}
use go_wmp.Jsonrpc.Decode.{ok, fail, nil_dereference, fail, ok, decode_message}
use go_wmp.Peer.{some, exceeds, none, Peer}
use go_wmp.Prelude.{[], ◌∷◌, if◌then◌else◌, ◌++◌, List, none, some, ◌++◌, if◌then◌else◌, List}
use go_wmp.Jsonrpc.{
  as_request, is_request, new_rpc_error, as_response, is_response, new_error_response, Request,
  Codec, Message, Response,
}
use Prim.Native.String
use go_wmp.Peer.Sync.{limits, too_large_response}

-- A response sent at once, a response handed to a waiting `Call`, or a request given to a goroutine
-- of its own, which runs `handleRequest`.
pub data Event : Type 0 where
  respond deliver : Response → Event
  spawn : Request → Event

unfoldable pub dispatch : Message → List Event
dispatch m =
    if is_response m
    then deliver (as_response m) ∷ []
    else if is_request m
    then spawn (as_request m) ∷ []
    else []

-- The loop over a batch.
unfoldable pub dispatch_all : List Message → List Event
unfolding dispatch
dispatch_all [] = []
dispatch_all (m ∷ ms) = dispatch m ++ dispatch_all ms

-- The events of one round, or a panic of the loop.
pub data Round : Type 0 where
  round : List Event → Round
  crash : Round

module _ {W S : Type 0} (c : Codec) (p : Peer W S) where
  abbrev pub parse_error_round : Round
  parse_error_round =
      round (respond (new_error_response none (some (new_rpc_error err_parse_error none))) ∷ [])

  unfoldable pub receive_one : String → Round
  unfolding dispatch
  receive_one text = elim (decode_message c (limits p) text) [
    | ok m ↦ round (dispatch m)
    | fail e ↦ parse_error_round
    | nil_dereference ↦ crash
  ]

  -- One round of the loop, behind `ReadMessage`.
  unfoldable pub receive : String → Round
  unfolding receive_one dispatch_all
  receive text =
      if exceeds (Prim.Native.String.len text) p.max_message_size
      then round (respond (too_large_response c) ∷ [])
      else elim (decode_batch c (limits p) text) [
        | ok batch ↦ elim batch [ some msgs ↦ round (dispatch_all msgs) | none ↦ receive_one text ]
        | fail e ↦ receive_one text
        | nil_dereference ↦ crash
      ]
