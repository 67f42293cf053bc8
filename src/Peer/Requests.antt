-- ===== src/Peer/Requests.antt =====
-- pkg/wmp/peer.go, `handleRequest`: the guards in front of the dispatcher, the enrichment of the
-- context, the middleware, and the answer.

use go_wmp.Prelude.{String, not, Option, none, some, str_eq, if◌then◌else◌}
use go_wmp.Errors.{err_internal_error, err_invalid_params, err_not_authorized}
use go_wmp.Types.Json.{Raw}
use go_wmp.Types.Envelope.{Metadata}
use go_wmp.Jsonrpc.{
  RpcError, Codec, Request, Response, is_notification, new_rpc_error, new_response,
  new_error_response, raw_text, reason, unmarshal,
}
use go_wmp.Session.{SessionStore}
use go_wmp.Context.{Context, context_with_request_id, context_with_sender, context_with_session}
use go_wmp.Profile.{Reply, Returned}
use go_wmp.Registry.{run_middleware}
use go_wmp.Peer.{Peer, State, Structs, to_rpc_error}
use go_wmp.Peer.Dispatch.{dispatch_method}

-- `rawIDToString`, which `handleResponse` writes out: the JSON string, or else the text itself.
unfoldable pub raw_id_to_string : Codec → Raw → String
raw_id_to_string c raw = elim (unmarshal c.unmarshal_string raw) [
  | some id ↦ id
  | none ↦ raw_text raw
]

module _ {S : Type 0} (store : SessionStore S) where
  -- `p.sessions != nil` and `p.sessions.Get`
  abbrev pub with_session : String → Option S → Context → Context
  with_session id none ctx = ctx
  with_session id (some sessions) ctx = elim (store.get id sessions) [
    | some sess ↦ context_with_session ctx sess
    | none ↦ ctx
  ]

  abbrev pub with_metadata : Option Metadata → Option S → Context → Context
  with_metadata none sessions ctx = ctx
  with_metadata (some m) sessions ctx =
      let ctx' = if not (str_eq m.sender "") then context_with_sender ctx m.sender else ctx in
      if not (str_eq m.session_id "") then with_session m.session_id sessions ctx' else ctx'

  -- The context of the handlers.
  unfoldable pub enrich : Codec → Structs → Request → Option S → Context → Context
  unfolding raw_id_to_string
  enrich c d req sessions ctx = with_metadata (unmarshal d.envelope req.params) sessions (
      if not (is_notification req)
      then context_with_request_id ctx (raw_id_to_string c req.id)
      else ctx)

module _ {W S : Type 0} (p : Peer W S) (c : Codec) where
  -- The error with which the authorizer or the validator stops the request.
  unfoldable pub refusal : Context → Request → Option RpcError
  refusal ctx req =
      let validated : Option RpcError = elim p.validator [
        | none ↦ none
        | some validate ↦ elim (validate req.method req.params) [
          | none ↦ none
          | some e ↦ some (new_rpc_error err_invalid_params (reason c e))
        ]
      ] in
      elim p.authorizer [
        | none ↦ validated
        | some authorize ↦
            if not (authorize ctx req.method req.params)
            then some (new_rpc_error err_not_authorized none)
            else validated
      ]

module _ {W S : Type 0} (c : Codec) (d : Structs) (store : SessionStore S) (p : Peer W S) where
  -- `runMiddleware` around the dispatcher, in the enriched context.
  unfoldable pub perform : Context → Request → State W S → Returned Reply × State W S
  unfolding enrich
  perform ctx req st =
      run_middleware p.middleware (dispatch_method c d store p.handler)
        (enrich store c d req st.sessions ctx) req.method req.params st

-- `NewResponse(req.ID, result)`, or an internal error where it cannot be marshalled.
abbrev pub marshalled : Raw → Option String → Response
marshalled id text = elim (new_response id text) [
  | some r ↦ r
  | none ↦ new_error_response id (some (new_rpc_error err_internal_error none))
]

-- The answer to a request that has an id.
unfoldable pub answer : Structs → Raw → Returned Reply → Response
answer d id (result, some e) = new_error_response id (to_rpc_error e)
answer d id (none, none) = marshalled id (some "{}")
answer d id (some reply, none) = marshalled id (d.marshal_reply reply)

module _ {W S : Type 0} (c : Codec) (d : Structs) (store : SessionStore S) (p : Peer W S) where
  -- The response that is sent, if one is.
  unfoldable pub handle_request : Context → Request → State W S → Option Response × State W S
  unfolding refusal perform
  handle_request ctx req st = elim (refusal p c ctx req) [
    | some e ↦
        (if not (is_notification req) then some (new_error_response req.id (some e)) else none, st)
    | none ↦
        let (returned, st') = perform c d store p ctx req st in
        (if is_notification req then none else some (answer d req.id returned), st')
  ]
