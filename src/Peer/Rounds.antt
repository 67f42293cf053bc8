-- ===== src/Peer/Rounds.antt =====
-- What a round of the read loop can do.
use go_wmp.Jsonrpc.Batch.{decode_batch_sound, decode_batch}
use go_wmp.Peer.Sync.{too_large_response, limits}
use go_wmp.Peer.{exceeds, some, Option, String, Peer}
use go_wmp.Peer.Serve.{
  crash, receive, receive_one, round, Round, spawn, deliver, respond, Event, dispatch, dispatch_all,
}
use go_wmp.Jsonrpc.{
  RpcError, new_error_response, as_request, as_response, is_request, is_response, Message, Codec,
}
use go_wmp.Prelude.{
  subst, All-append, All, is_some, true, false, none, ◌≡◌, refl, Bool-cases, inl, inr, List, [],
  ◌∷◌,
}
use go_wmp.Jsonrpc.Decode.{
  max_depth, nil_dereference, fail, decode_message-eq-ok_iff, ok, decode_message, Decoded,
  default_max_depth, IsAcceptable,
}

module _ (c : Codec) where
  -- A request or a response comes from an acceptable message; what is sent at once is an error
  -- without an id.
  abbrev pub IsFromMessage : Event → Type 0
  IsFromMessage (respond r) = (r.id ≡ none) × (r.result ≡ none) × (is_some r.error ≡ true)
  IsFromMessage (deliver r) =
      (m : Message) × IsAcceptable c default_max_depth m
      × (is_response m ≡ true)
      × (as_response m ≡ r)
  IsFromMessage (spawn r) =
      (m : Message) × IsAcceptable c default_max_depth m
      × (is_response m ≡ false)
      × (is_request m ≡ true)
      × (as_request m ≡ r)

  dispatch-IsFromMessage :
      (m : Message) → IsAcceptable c default_max_depth m → All IsFromMessage (dispatch m)
  unfolding dispatch
  dispatch-IsFromMessage m good = elim (Bool-cases (is_response m)) [
    | inl reply ↦ rw (reply, dispatch) ((m, good, reply, refl), tt)
    | inr plain ↦ elim (Bool-cases (is_request m)) [
      | inl asked ↦ rw (plain, asked, dispatch) ((m, good, plain, asked, refl), tt)
      | inr empty ↦ rw (plain, empty, dispatch) tt
    ]
  ]

  dispatch_all-IsFromMessage :
      (ms : List Message)
      → All (IsAcceptable c default_max_depth) ms
      → All IsFromMessage (dispatch_all ms)
  unfolding dispatch_all
  dispatch_all-IsFromMessage [] h = tt
  dispatch_all-IsFromMessage (m ∷ ms) (good, h) =
      All-append IsFromMessage (dispatch m) (dispatch_all ms) (dispatch-IsFromMessage m good)
        (dispatch_all-IsFromMessage ms h)

  error-IsFromMessage :
      (e : RpcError) → All IsFromMessage (respond (new_error_response none (some e)) ∷ [])
  unfolding new_error_response
  error-IsFromMessage e = ((refl, refl, refl), tt)

  abbrev Sound : Round → Type 0
  Sound (round es) = All IsFromMessage es
  Sound crash = Unit

  module _ {W S : Type 0} (p : Peer W S) where
    receive_one-Sound : (text : String) → Sound (receive_one c p text)
    unfolding receive_one max_depth
    receive_one-Sound text = go (decode_message c (limits p) text) refl
      where
        go :
            (r : Decoded Message)
            → decode_message c (limits p) text ≡ r
            → Sound (receive_one c p text)
        go (ok m) e =
            rw (e, receive_one)
              (dispatch-IsFromMessage m ((decode_message-eq-ok_iff c (limits p) text m).0 e).2)
        go (fail bad) e = rw (e, receive_one) (error-IsFromMessage _)
        go nil_dereference e = rw (e, receive_one) tt

    receive-Sound : (text : String) → Sound (receive c p text)
    unfolding receive max_depth too_large_response decode_batch
    receive-Sound text =
        elim (Bool-cases (exceeds (Prim.Native.String.len text) p.max_message_size)) [
          | inl big ↦ rw (big, receive, too_large_response) (error-IsFromMessage _)
          | inr fits ↦ rw (fits, receive) (go (decode_batch c (limits p) text) refl)
        ]
      where
        go :
            (r : Decoded (Option (List Message)))
            → decode_batch c (limits p) text ≡ r
            → Sound (elim r [
              | ok batch ↦ elim batch [
                | some msgs ↦ round (dispatch_all msgs)
                | none ↦ receive_one c p text
              ]
              | fail e ↦ receive_one c p text
              | nil_dereference ↦ crash
            ])
        go (ok (some ms)) e =
            dispatch_all-IsFromMessage ms (decode_batch_sound c (limits p) text ms e).0
        go (ok none) e = receive_one-Sound text
        go (fail bad) e = receive_one-Sound text
        go nil_dereference e = tt

    -- Whatever text a peer reads, each request that the round hands to a goroutine, and each response
    -- that it hands to a waiting call, is one of a message with version 2.0 whose params, result and
    -- error data fit into the depth limit; a request has a method and neither result nor error. What
    -- is sent at once is an error response without an id.
    pub receive_sound :
        (text : String) (es : List Event) → receive c p text ≡ round es → All IsFromMessage es
    receive_sound text es h = subst Sound h (receive-Sound text)
