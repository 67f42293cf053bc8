-- ===== src/Peer/Agreement.antt =====
-- `HandleRequestSync` against `handleRequest`: the two copies of the code.
use go_wmp.Errors.{err_not_authorized, err_invalid_params}
use go_wmp.Types.Json.{Raw}
use go_wmp.Peer.Requests.{refusal, handle_request, perform, enrich, answer}
use go_wmp.Peer.Sync.{
  answered, limits, handle_request_sync, process, sync_context, sync_answer, denies, invalidity,
}
use go_wmp.Session.{SessionStore}
use go_wmp.Profile.{Returned, Reply}
use go_wmp.Peer.{exceeds, String, State, Context, Peer, Structs}
use go_wmp.Jsonrpc.{
  as_request, is_response, Message, Request, Response, Codec, new_error_response, new_rpc_error,
  reason,
}
use go_wmp.Prelude.{
  Option, arith, true, false, none, some, ◌≡◌, refl, Option-cases, Bool-cases, inl, inr,
}
use go_wmp.Jsonrpc.Decode.{decode_message, ok}

module _ {W S : Type 0} (c : Codec) (d : Structs) (store : SessionStore S) (p : Peer W S)
    (ctx : Context) where
  -- The two copies of the enrichment.
  sync_context-enrich :
      (req : Request) (sessions : Option S)
      → sync_context store c d req sessions ctx ≡ enrich store c d req sessions ctx
  unfolding sync_context enrich
  sync_context-enrich req sessions = ground arith

  -- The two copies of the answer.
  sync_answer-answer : (id : Raw) (r : Returned Reply) → sync_answer d id r.0 r.1 ≡ answer d id r
  unfolding sync_answer answer
  sync_answer-answer id (result, some e) = refl
  sync_answer-answer id (none, none) = refl
  sync_answer-answer id (some reply, none) = refl

  -- The two copies of the guards.
  denied :
      (req : Request)
      → denies c d store p ctx req ≡ true
      → refusal p c ctx req ≡ some (new_rpc_error err_not_authorized none)
  unfolding refusal
  denied req no_entry = ground arith

  invalid :
      (req : Request) (e : String)
      → denies c d store p ctx req ≡ false
      → invalidity c d store p req ≡ some e
      → refusal p c ctx req ≡ some (new_rpc_error err_invalid_params (reason c e))
  unfolding refusal
  invalid req e through bad = ground arith

  admitted :
      (req : Request)
      → denies c d store p ctx req ≡ false
      → invalidity c d store p req ≡ none
      → refusal p c ctx req ≡ none
  unfolding refusal
  admitted req through fine = ground arith

  -- What the synchronous call returns for a request: it answers a notification that is stopped, too.
  abbrev pub response_to : Request → State W S → Option Response
  response_to req st = elim (refusal p c ctx req) [
    | some e ↦ some (new_error_response req.id (some e))
    | none ↦ (handle_request c d store p ctx req st).0
  ]

  process-handle_request :
      (req : Request) (st : State W S)
      → process c d store p ctx req st
        ≡ (response_to req st, (handle_request c d store p ctx req st).1)
  unfolding process handle_request perform
  process-handle_request req st = elim (Bool-cases (denies c d store p ctx req)) [
    | inl stopped ↦ simp (stopped, response_to, denied req stopped, process, handle_request)
    | inr through ↦ elim (Option-cases (invalidity c d store p req)) [
      | inl fine ↦ simp (
        through,
        fine,
        response_to,
        admitted req through fine,
        sync_context-enrich req st.sessions,
        sync_answer-answer req.id,
        process,
        handle_request,
        perform,
      )
      | inr (e, bad) ↦
          simp (through, bad, response_to, invalid req e through bad, process, handle_request)
    ]
  ]

  -- For a text within the size limit that decodes to a message without result and error, the
  -- synchronous call leaves the state that `handleRequest` leaves and returns the response that it
  -- sends; only a notification that the authorizer or the validator stops, to which `handleRequest` sends
  -- nothing, is answered with the error.
  pub handle_request_sync-handle_request :
      (text : String) (m : Message) (st : State W S)
      → exceeds (Prim.Native.String.len text) p.max_message_size ≡ false
      → decode_message c (limits p) text ≡ ok m
      → is_response m ≡ false
      → handle_request_sync c d store p ctx text st
        ≡ answered
            (response_to (as_request m) st)
            (handle_request c d store p ctx (as_request m) st).1
  unfolding handle_request_sync
  handle_request_sync-handle_request text m st fits decoded plain =
      simp (fits, decoded, plain, process-handle_request (as_request m) st, handle_request_sync)
