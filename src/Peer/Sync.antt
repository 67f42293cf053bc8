-- ===== src/Peer/Sync.antt =====
-- pkg/wmp/peer.go, `HandleRequestSync`: one message in, the bytes of the response out.
use go_wmp.Errors.{
  err_internal_error, err_parse_error, err_invalid_request, err_not_authorized, err_invalid_params,
}
use Prim.Native.String.{String}
use go_wmp.Peer.Requests.{marshalled, raw_id_to_string}
use go_wmp.Peer.Dispatch.{dispatch_method}
use go_wmp.Registry.{run_middleware}
use go_wmp.Types.Json.{Raw}
use go_wmp.Profile.{Reply, Failure}
use go_wmp.Context.{context_with_request_id, context_with_sender, context_with_session}
use go_wmp.Session.{SessionStore}
use go_wmp.Peer.{to_rpc_error, exceeds, State, Context, none, Structs, some, Peer}
use go_wmp.Prelude.{if◌then◌else◌, Option, Bool, false, not, str_eq}
use go_wmp.Jsonrpc.{
  new_response, unmarshal, as_request, as_response, is_notification, is_response, reason, Request,
  Message, new_rpc_error, new_error_response, Response, Codec,
}
use Prim.Native.String
use go_wmp.Prelude.Int.{pos}
use go_wmp.Jsonrpc.Decode.{
  nil_dereference, fail, ok, DecodeOptions, default_max_depth, decode_message,
}

unfoldable pub too_large_response : Codec → Response
too_large_response c =
    new_error_response none
      (some (new_rpc_error err_invalid_request (reason c "message too large")))

-- The context of the handlers, as `HandleRequestSync` builds it.
unfoldable pub sync_context :
    {S : Type 0} → SessionStore S → Codec → Structs → Request → Option S → Context → Context
unfolding raw_id_to_string
sync_context store c d req sessions ctx =
    let identified =
      if is_notification req
      then ctx
      else context_with_request_id ctx (raw_id_to_string c req.id) in
    elim (unmarshal d.envelope req.params) [
      | none ↦ identified
      | some meta ↦
          let sent =
            if str_eq meta.sender ""
            then identified
            else context_with_sender identified meta.sender in
          if str_eq meta.session_id "" then sent else elim sessions [
            | none ↦ sent
            | some s ↦ elim (store.get meta.session_id s) [
              | none ↦ sent
              | some sess ↦ context_with_session sent sess
            ]
          ]
    ]

-- The end of `HandleRequestSync`, for a request that has an id.
unfoldable pub sync_answer : Structs → Raw → Option Reply → Option Failure → Response
sync_answer d id result (some e) = new_error_response id (to_rpc_error e)
sync_answer d id none none = marshalled id (some "{}")
sync_answer d id (some reply) none = elim (new_response id (d.marshal_reply reply)) [
  | some r ↦ r
  | none ↦ new_error_response id (some (new_rpc_error err_internal_error none))
]

module _ {W S : Type 0} (c : Codec) (d : Structs) (store : SessionStore S) (p : Peer W S) where
  -- `p.authorizer != nil && !p.authorizer.Authorize(...)`
  abbrev pub denies : Context → Request → Bool
  denies ctx req = elim p.authorizer [
    | none ↦ false
    | some authorize ↦ not (authorize ctx req.method req.params)
  ]

  -- `p.validator != nil`, and the error of `ValidateMethod`.
  abbrev pub invalidity : Request → Option String
  invalidity req = elim p.validator [ none ↦ none | some validate ↦ validate req.method req.params ]

  -- From the authorizer on: the code is written out again there, and so it is here.
  unfoldable pub process : Context → Request → State W S → Option Response × State W S
  unfolding sync_context sync_answer
  process ctx req st =
      if denies ctx req
      then (some (new_error_response req.id (some (new_rpc_error err_not_authorized none))), st)
      else elim (invalidity req) [
        | some e ↦ (
          some (new_error_response req.id (some (new_rpc_error err_invalid_params (reason c e)))),
          st,
        )
        | none ↦
            let (returned, st') =
              run_middleware p.middleware (dispatch_method c d store p.handler)
                (sync_context store c d req st.sessions ctx) req.method req.params st in
            (
              if is_notification req
                  then none
                  else some (sync_answer d req.id returned.0 returned.1),
              st',
            )
      ]

-- What a call does: it returns a response or nil, with the state left behind; it hands a response to
-- a waiting `Call`; or the decoder panics.
pub data Handled (St : Type 0) : Type 0 where
  answered : Option Response → St → Handled St
  delivered : Response → Handled St
  crashed : Handled St

-- `&DecodeOptions{MaxSize: p.maxMessageSize, MaxDepth: defaultMaxDepth}`
abbrev pub limits : {W S : Type 0} → Peer W S → Option DecodeOptions
limits p = some (record { max_size = p.max_message_size; max_depth = pos default_max_depth })

module _ {W S : Type 0} (c : Codec) (d : Structs) (store : SessionStore S) (p : Peer W S) where
  abbrev pub handle_message : Context → Message → State W S → Handled (State W S)
  handle_message ctx m st =
      if is_response m
      then delivered (as_response m)
      else let (response, st') = process c d store p ctx (as_request m) st in answered response st'

  unfoldable pub handle_request_sync : Context → String → State W S → Handled (State W S)
  unfolding process
  handle_request_sync ctx text st =
      if exceeds (Prim.Native.String.len text) p.max_message_size
      then answered (some (too_large_response c)) st
      else elim (decode_message c (limits p) text) [
        | ok m ↦ handle_message ctx m st
        | fail e ↦
            answered (some (new_error_response none (some (new_rpc_error err_parse_error none)))) st
        | nil_dereference ↦ crashed
      ]
