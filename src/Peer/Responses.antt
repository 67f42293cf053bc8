-- ===== src/Peer/Responses.antt =====
-- What `handleRequest` sends, whatever the middleware and the handlers do.
use go_wmp.Errors.{err_invalid_params, err_not_authorized}
use go_wmp.Session.{SessionStore}
use go_wmp.Peer.Requests.{perform, handle_request, refusal, marshalled, answer}
use go_wmp.Jsonrpc.{
  reason, new_rpc_error, is_notification, Request, Response, RpcError, Codec, new_error_response,
  new_response,
}
use go_wmp.Types.Json.{Raw}
use go_wmp.Peer.{to_rpc_error, Reply, State, Returned, Context, String, Structs, Peer}
use go_wmp.Profile.{rpc, nil_rpc, other}
use go_wmp.Prelude.{
  sym, ◌∙◌, subst, ◌⊎◌, arith, not, Bool, true, false, Option, none, some, ◌≡◌, ◌↔◌, refl,
  Bool-cases, Option-cases, is_some, inl, inr,
}

-- A response of JSON-RPC 2.0 to the id: it has a result, or else an error, unless `Nil` holds; then it
-- has neither.
pub record Answers (Nil : Type 0) (id : Raw) (r : Response) : Type 0 where
  pub version : r.jsonrpc ≡ "2.0"
  pub same_id : r.id ≡ id
  pub one_outcome : (Nil → ⊥) → is_some r.result ≡ not (is_some r.error)
  pub no_outcome : Nil → (r.result ≡ none) × (r.error ≡ none)

new_error_response-Answers :
    (Nil : Type 0) (id : Raw) (e : RpcError)
    → (Nil → ⊥)
    → Answers Nil id (new_error_response id (some e))
unfolding new_error_response
new_error_response-Answers Nil id e never = record {
  version = refl;
  same_id = refl;
  one_outcome = λ _. refl;
  no_outcome = λ holds. absurd (never holds);
}

marshalled-Answers :
    (Nil : Type 0) (id : Raw) (text : Option String)
    → (Nil → ⊥)
    → Answers Nil id (marshalled id text)
unfolding new_response
marshalled-Answers Nil id none never = new_error_response-Answers Nil id _ never
marshalled-Answers Nil id (some r) never = record {
  version = refl;
  same_id = refl;
  one_outcome = λ _. refl;
  no_outcome = λ holds. absurd (never holds);
}

answer-Answers :
    (d : Structs) (id : Raw) (r : Returned Reply) → Answers (r.1 ≡ some nil_rpc) id (answer d id r)
unfolding answer to_rpc_error new_error_response
answer-Answers d id (result, some (rpc e)) = new_error_response-Answers _ id e (λ same. cc)
answer-Answers d id (result, some (other s)) = new_error_response-Answers _ id _ (λ same. cc)
answer-Answers d id (result, some nil_rpc) = record {
  version = refl;
  same_id = refl;
  one_outcome = λ never. absurd (never refl);
  no_outcome = λ _. (refl, refl);
}
answer-Answers d id (none, none) = marshalled-Answers _ id (some "{}") (λ same. cc)
answer-Answers d id (some reply, none) = marshalled-Answers _ id _ (λ same. cc)

Answers-map :
    {A B : Type 0} (id : Raw) (r : Response) → (A → B) → (B → A) → Answers A id r → Answers B id r
Answers-map id r f g a = record {
  version = a.version;
  same_id = a.same_id;
  one_outcome = λ never. a.one_outcome (λ x. never (f x));
  no_outcome = λ y. a.no_outcome (g y);
}

module _ {W S : Type 0} (c : Codec) (d : Structs) (store : SessionStore S) (p : Peer W S)
    (ctx : Context) (req : Request) (st : State W S) where
  -- No response is sent exactly when the request is a notification.
  pub handle_request-eq-none_iff :
      ((handle_request c d store p ctx req st).0 ≡ none) ↔ (is_notification req ≡ true)
  unfolding handle_request
  handle_request-eq-none_iff = elim (Option-cases (refusal p c ctx req)) [
    | inl fine ↦ simp (fine, handle_request) (ground arith)
    | inr (e, refused) ↦ simp (refused, handle_request) (ground arith)
  ]

  -- The request passes the guards, and the middleware around the handlers return a nil `*RPCError` as
  -- their error.
  abbrev pub ReturnsNilError : Type 0
  ReturnsNilError =
      (refusal p c ctx req ≡ none) × ((perform c d store p ctx req st).0.1 ≡ some nil_rpc)

  answered :
      ((handle_request c d store p ctx req st).0 ≡ none)
      ⊎ ((r : Response) × ((handle_request c d store p ctx req st).0 ≡ some r)
          × Answers ReturnsNilError req.id r)
  unfolding handle_request
  answered = elim (Bool-cases (is_notification req)) [
    | inl quiet ↦ inl (handle_request-eq-none_iff.1 quiet)
    | inr asked ↦ elim (Option-cases (refusal p c ctx req)) [
      | inl fine ↦ inr (
        answer d req.id (perform c d store p ctx req st).0,
        simp (fine, asked, handle_request),
        Answers-map req.id (answer d req.id (perform c d store p ctx req st).0)
            (λ same. (fine, same)) (λ nil. nil.1)
            (answer-Answers d req.id (perform c d store p ctx req st).0),
      )
      | inr (e, refused) ↦ inr (
        new_error_response req.id (some e),
        simp (refused, asked, handle_request),
        new_error_response-Answers ReturnsNilError req.id e
            (λ nil. let same : some e ≡ none = sym refused ∙ nil.0 in cc),
      )
    ]
  ]

  -- A response that is sent has version 2.0 and the request's id, and has either a result or an error,
  -- except where the middleware around the handlers return a nil *RPCError as their error: then it has
  -- neither.
  pub handle_request-Answers :
      {r : Response}
      → (handle_request c d store p ctx req st).0 ≡ some r
      → Answers ReturnsNilError req.id r
  handle_request-Answers {r = r} sent = elim answered [
    | inl nothing ↦ absurd (cc (rw nothing at sent))
    | inr (r', there, right) ↦
        let same : r' ≡ r = cc in subst (Answers ReturnsNilError req.id) same right
  ]

  -- What the authorizer and the validator reject.
  abbrev pub IsRejected : Type 0
  IsRejected =
      ((authorize : Context → String → Raw → Bool) × (p.authorizer ≡ some authorize)
        × (authorize ctx req.method req.params ≡ false))
      ⊎ ((validate : String → Raw → Option String) × (message : String) × (p.validator
            ≡ some validate)
          × (validate req.method req.params ≡ some message))

  refusal-IsRejected :
      IsRejected
      → (e : RpcError) × (refusal p c ctx req ≡ some e)
        × ((e.code ≡ err_not_authorized) ⊎ (e.code ≡ err_invalid_params))
  unfolding refusal new_rpc_error
  refusal-IsRejected (inl (authorize, there, denied)) =
      (new_rpc_error err_not_authorized none, simp (there, denied, refusal), inl refl)
  refusal-IsRejected (inr (validate, message, there, bad)) = elim (Option-cases p.authorizer) [
    | inl open_to_all ↦ (
      new_rpc_error err_invalid_params (reason c message),
      simp (open_to_all, there, bad, refusal),
      inr refl,
    )
    | inr (authorize, guarded) ↦ elim (Bool-cases (authorize ctx req.method req.params)) [
      | inl allowed ↦ (
        new_rpc_error err_invalid_params (reason c message),
        simp (guarded, allowed, there, bad, refusal),
        inr refl,
      )
      | inr denied ↦
          (new_rpc_error err_not_authorized none, simp (guarded, denied, refusal), inl refl)
    ]
  ]

  -- A request that the authorizer denies or the validator rejects reaches neither middleware nor
  -- handler, so that the state stays as it is; unless it is a notification, its answer is an error
  -- with code -31002 or -32602.
  pub handle_request_rejects :
      IsRejected
      → ((handle_request c d store p ctx req st).1 ≡ st)
        × (is_notification req ≡ false
            → (e : RpcError) × ((handle_request c d store p ctx req st).0
                ≡ some (new_error_response req.id (some e)))
              × ((e.code ≡ err_not_authorized) ⊎ (e.code ≡ err_invalid_params)))
  unfolding handle_request
  handle_request_rejects bad =
      let (e, refused, coded) = refusal-IsRejected bad in
      (simp (refused, handle_request), λ asked. (e, simp (refused, asked, handle_request), coded))
