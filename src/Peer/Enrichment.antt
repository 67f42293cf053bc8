-- ===== src/Peer/Enrichment.antt =====
-- What `handleRequest` puts into the context of the handlers.
use go_wmp.Peer.Requests.{raw_id_to_string, enrich, with_metadata, with_session}
use go_wmp.Context.{context_with_request_id, Context, context_with_sender, context_with_session}
use go_wmp.Jsonrpc.{is_notification, Codec, unmarshal, Request}
use Prim.Native.String.{String}
use go_wmp.Session.{Session, SessionStore}
use go_wmp.Peer.{Metadata, Structs}
use go_wmp.Prelude.{
  ap, sym, true, false, Option, none, some, ◌≡◌, refl, Bool-cases, Option-cases, inl, inr, arith,
  str_eq, if◌then◌else◌,
}

-- The metadata that the parameters claim, where they decode to an envelope.
abbrev pub claimed_sender : Structs → Request → String
claimed_sender d req = elim (unmarshal d.envelope req.params) [ none ↦ "" | some m ↦ m.sender ]

abbrev pub claimed_session : Structs → Request → String
claimed_session d req = elim (unmarshal d.envelope req.params) [ none ↦ "" | some m ↦ m.session_id ]

-- The session that the store, where there is one, holds under the claimed id.
abbrev pub stored_session : {S : Type 0} → SessionStore S → String → Option S → Option Session
stored_session store id none = none
stored_session store id (some sessions) = if str_eq id "" then none else store.get id sessions

abbrev pub or_else {ℓ} : {A : Type ℓ} → Option A → Option A → Option A
or_else none b = b
or_else (some a) b = some a

module _ {S : Type 0} (store : SessionStore S) where
  stored_session_of_empty :
      (id : String) (sessions : Option S)
      → str_eq id "" ≡ true
      → stored_session store id sessions ≡ none
  stored_session_of_empty id none empty = refl
  stored_session_of_empty id (some sessions) empty = rw empty refl

  with_session-fields :
      (id : String) (sessions : Option S) (ctx : Context)
      → str_eq id "" ≡ false
      → ((with_session store id sessions ctx).session
          ≡ or_else (stored_session store id sessions) ctx.session)
        × ((with_session store id sessions ctx).sender ≡ ctx.sender)
        × ((with_session store id sessions ctx).request_id ≡ ctx.request_id)
  unfolding context_with_session
  with_session-fields id none ctx named = (refl, refl, refl)
  with_session-fields id (some sessions) ctx named = elim (Option-cases (store.get id sessions)) [
    | inl gone ↦ (ground arith, ground arith, ground arith)
    | inr (sess, there) ↦ (ground arith, ground arith, ground arith)
  ]

  with_metadata-fields :
      (m : Metadata) (sessions : Option S) (ctx : Context)
      → let out = with_metadata store (some m) sessions ctx in
        (out.session ≡ or_else (stored_session store m.session_id sessions) ctx.session)
        × (out.sender ≡ (if str_eq m.sender "" then ctx.sender else some m.sender))
        × (out.request_id ≡ ctx.request_id)
  unfolding context_with_sender
  with_metadata-fields m sessions ctx = elim (Bool-cases (str_eq m.sender "")) [
    | inl anonymous ↦ elim (Bool-cases (str_eq m.session_id "")) [
      | inl unnamed ↦
          rw (anonymous, unnamed, with_metadata)
            (
              sym (
                  ap (λ x. or_else x ctx.session)
                    (stored_session_of_empty m.session_id sessions unnamed)),
              refl,
              refl,
            )
      | inr named ↦
          rw (anonymous, named, with_metadata) (with_session-fields m.session_id sessions ctx named)
    ]
    | inr known ↦ elim (Bool-cases (str_eq m.session_id "")) [
      | inl unnamed ↦
          rw (known, unnamed, with_metadata)
            (
              sym (
                  ap (λ x. or_else x ctx.session)
                    (stored_session_of_empty m.session_id sessions unnamed)),
              refl,
              refl,
            )
      | inr named ↦
          rw (known, named, with_metadata)
            (with_session-fields m.session_id sessions (context_with_sender ctx m.sender) named)
    ]
  ]

  -- In the context that `handleRequest` passes on, the request id is that of the request, or the
  -- caller's for a notification; the sender is the claimed one, or the caller's where none is claimed;
  -- the session is the one stored under the claimed id, or the caller's where there is none.
  pub enrich-fields :
      (c : Codec) (d : Structs) (req : Request) (sessions : Option S) (ctx : Context)
      → let out = enrich store c d req sessions ctx in
        (out.request_id
          ≡ (if is_notification req then ctx.request_id else some (raw_id_to_string c req.id)))
        × (out.sender ≡ (
            if str_eq (claimed_sender d req) "" then ctx.sender else some (claimed_sender d req)))
        × (out.session
            ≡ or_else (stored_session store (claimed_session d req) sessions) ctx.session)
  unfolding enrich context_with_request_id
  enrich-fields c d req sessions ctx = elim (Bool-cases (is_notification req)) [
    | inl quiet ↦ elim (Option-cases (unmarshal d.envelope req.params)) [
      | inl bad ↦
          rw (quiet, bad, claimed_sender, claimed_session, enrich)
            (
              refl,
              refl,
              sym (ap (λ x. or_else x ctx.session) (stored_session_of_empty "" sessions refl)),
            )
      | inr (m, good) ↦
          let (session, sender, id) = with_metadata-fields m sessions ctx in
          rw (quiet, good, claimed_sender, claimed_session, enrich) (id, sender, session)
    ]
    | inr asked ↦ elim (Option-cases (unmarshal d.envelope req.params)) [
      | inl bad ↦
          rw (asked, bad, claimed_sender, claimed_session, enrich)
            (
              refl,
              refl,
              sym (ap (λ x. or_else x ctx.session) (stored_session_of_empty "" sessions refl)),
            )
      | inr (m, good) ↦
          let (session, sender, id) =
            with_metadata-fields m sessions
              (context_with_request_id ctx (raw_id_to_string c req.id)) in
          rw (asked, good, claimed_sender, claimed_session, enrich) (id, sender, session)
    ]
  ]
