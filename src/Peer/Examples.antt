-- ===== src/Peer/Examples.antt =====
-- Tests of the peer.
use go_wmp.Profile.{nil_rpc}
use go_wmp.Errors.{err_not_authorized}
use go_wmp.Peer.Responses.{ReturnsNilError}
use go_wmp.Peer.Agreement.{response_to}
use go_wmp.Errors.{err_method_not_found}
use go_wmp.Peer.Agreement.{handle_request_sync-handle_request}
use go_wmp.Peer.Rounds.{receive_sound, IsFromMessage}
use go_wmp.Peer.Dispatch.{
  on_flow_cancel, on_flow_error, dispatch_method, on_flow_complete, on_flow_progress, on_flow_start,
}
use go_wmp.Peer.Flows.{flow_lifecycle}
use go_wmp.Registry.{lookup_flow_handler, lookup_flow_owner}
use go_wmp.Peer.Serve.{deliver, spawn, round, receive}
use go_wmp.Peer.Sync.{answered, limits, handle_request_sync}
use go_wmp.Jsonrpc.Decode.{ok, decode_message}
use go_wmp.Peer.{str_eq, exceeds}
use go_wmp.Peer.Responses.{handle_request-Answers, handle_request_rejects, Answers}
use go_wmp.Jsonrpc.{
  as_response, new_rpc_error, as_request, new_error_response, Response, is_notification,
  is_response,
}
use go_wmp.Peer.Requests.{handle_request}
use go_wmp.Peer.Frame.{dispatch_frame, SameHandlers}
use go_wmp.Prelude.{◌+◌, All, ◌≡◌, refl, none, some, [], ◌∷◌, true, false, ◌↔◌, inl, if◌then◌else◌}
use go_wmp.Fixtures.{
  codec, structs, handler, peer, state, context, ping, pong, news, starter, start, progress,
  complete, registry,
}
use go_wmp.Session.{memory_session_store}

dispatch_frame_example :
    SameHandlers registry
      (dispatch_method codec structs memory_session_store handler context "wmp.flow.start"
        (some "{}")
        state).1.registry
dispatch_frame_example =
    (dispatch_frame codec structs memory_session_store handler context "wmp.flow.start" (some "{}")
      state).0

abbrev not_found : Response
not_found = new_error_response (some "1") (some (new_rpc_error err_method_not_found none))

answers_ping :
    (handle_request codec structs memory_session_store peer context (as_request ping) state).0
    ≡ some not_found
unfolding handle_request as_request is_notification new_error_response go_wmp.Peer.Requests.answer
    go_wmp.Registry.run_middleware dispatch_method go_wmp.Peer.Dispatch.route
    go_wmp.Peer.Dispatch.on_custom_method go_wmp.Registry.lookup_method go_wmp.Prelude.Maps.lookup
    new_rpc_error go_wmp.Peer.to_rpc_error
answers_ping = refl

handle_request-Answers_example :
    Answers
      (ReturnsNilError codec structs memory_session_store peer context (as_request ping) state)
      (as_request ping).id
      not_found
handle_request-Answers_example =
    handle_request-Answers codec structs memory_session_store peer context (as_request ping) state
      answers_ping

-- A test: a middleware that returns a nil error pointer, and the response with no outcome.
nil_error_unanswered :
    (handle_request codec structs memory_session_store
      (record peer { middleware = (λ next ctx method params st. ((none, some nil_rpc), st)) ∷ [] })
      context
      (as_request ping)
      state).0
    ≡ some (record { jsonrpc = "2.0"; id = some "1"; result = none; error = none })
unfolding handle_request as_request is_notification new_error_response go_wmp.Peer.Requests.answer
    go_wmp.Registry.run_middleware go_wmp.Peer.to_rpc_error go_wmp.Peer.Requests.refusal
    go_wmp.Peer.Requests.perform
nil_error_unanswered = refl

handle_request_rejects_example :
    (handle_request codec structs memory_session_store peer context (as_request news) state).1
    ≡ state
unfolding as_request
handle_request_rejects_example =
    (handle_request_rejects codec structs memory_session_store peer context (as_request news) state
      (inl ((λ ctx method params. if str_eq method "app.news" then false else true), refl, refl))).0

ping_fits : exceeds (Prim.Native.String.len "ping") peer.max_message_size ≡ false
ping_fits = refl

ping_decodes : decode_message codec (limits peer) "ping" ≡ ok ping
unfolding decode_message go_wmp.Jsonrpc.Decode.max_size go_wmp.Jsonrpc.Decode.check_message_depth
    go_wmp.Jsonrpc.Decode.max_depth go_wmp.Jsonrpc.Depth.depth go_wmp.Jsonrpc.Decode.require_eof
ping_decodes = refl

ping_plain : is_response ping ≡ false
unfolding is_response
ping_plain = refl

news_fits : exceeds (Prim.Native.String.len "news") peer.max_message_size ≡ false
news_fits = refl

news_decodes : decode_message codec (limits peer) "news" ≡ ok news
unfolding decode_message go_wmp.Jsonrpc.Decode.max_size go_wmp.Jsonrpc.Decode.check_message_depth
    go_wmp.Jsonrpc.Decode.max_depth go_wmp.Jsonrpc.Depth.depth go_wmp.Jsonrpc.Decode.require_eof
news_decodes = refl

news_plain : is_response news ≡ false
unfolding is_response
news_plain = refl

-- The authorizer stops the notification: only the synchronous call answers it.
handle_request_sync-handle_request_example :
    (handle_request_sync codec structs memory_session_store peer context "ping" state
      ≡ answered
          (response_to codec structs memory_session_store peer context (as_request ping) state)
          (handle_request codec structs memory_session_store peer context
            (as_request ping)
            state).1)
    × (handle_request_sync codec structs memory_session_store peer context "news" state
        ≡ answered
            (some (new_error_response none (some (new_rpc_error err_not_authorized none))))
            (handle_request codec structs memory_session_store peer context
              (as_request news)
              state).1)
unfolding as_request go_wmp.Peer.Requests.refusal
handle_request_sync-handle_request_example = (
  handle_request_sync-handle_request codec structs memory_session_store peer context "ping" ping
      state ping_fits ping_decodes ping_plain,
  handle_request_sync-handle_request codec structs memory_session_store peer context "news" news
      state news_fits news_decodes news_plain,
)

batch_round :
    receive codec peer "[ping,pong]"
    ≡ round (spawn (as_request ping) ∷ deliver (as_response pong) ∷ [])
unfolding receive go_wmp.Jsonrpc.Batch.decode_batch go_wmp.Jsonrpc.Decode.max_size
    go_wmp.Jsonrpc.Batch.starts_array go_wmp.Jsonrpc.Batch.trim_space
    go_wmp.Jsonrpc.Batch.check_batch go_wmp.Jsonrpc.Decode.check_message_depth
    go_wmp.Jsonrpc.Decode.max_depth go_wmp.Jsonrpc.Depth.depth go_wmp.Jsonrpc.Decode.require_eof
    is_response go_wmp.Jsonrpc.is_request
batch_round = refl

receive_sound_example :
    All (IsFromMessage codec) (spawn (as_request ping) ∷ deliver (as_response pong) ∷ [])
receive_sound_example =
    receive_sound codec peer "[ping,pong]"
      (spawn (as_request ping) ∷ deliver (as_response pong) ∷ []) batch_round

starter_found : lookup_flow_handler "oid4vci" state.registry ≡ some starter
unfolding lookup_flow_handler go_wmp.Prelude.Maps.lookup
starter_found = refl

flow_lifecycle_example :
    let started =
      (on_flow_start codec structs memory_session_store handler context start state).1 in
    (on_flow_progress codec structs memory_session_store handler context progress started).1.world
    ≡ started.world + 100
flow_lifecycle_example =
    (flow_lifecycle codec structs memory_session_store handler context state start starter
      (record { wmp = start.wmp; flow_id = "f1"; flow_type = "oid4vci" }) progress complete
      starter_found refl refl refl).0
