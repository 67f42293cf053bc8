-- ===== src/Relay/Mailbox.antt =====
-- The offline queues seen as mailboxes: at an instant, the messages of a participant that have not
-- expired. Purging is invisible in this view.
use go_wmp.Prelude.{
  ap, ◌∙◌, ◌+◌, ◌≤◌, ◌≡◌, ◌≢◌, refl, String, true, false, not, none, some, List, [], ◌∷◌, ◌++◌,
  arith, Option-cases, Bool-cases, inl, inr, leb, length, filter, filter-filter, filter-append,
}
use go_wmp.Prelude.Maps.{
  erase, Map, lookup, insert, lookup-insert_self, lookup-insert_ne, lookup-erase_self,
  lookup-erase_ne,
}
use go_wmp.Types.Json.{Time}
use go_wmp.Relay.{Relay, QueuedMessage, drained, is_live, queue_of, enqueue, drain, purge_expired}
use go_wmp.Relay.Queues.{IsValid, lookup-purge_queues, unless_empty}

-- What a participant can still get at an instant.
abbrev pub mailbox : Time → String → Relay → List QueuedMessage
mailbox now p r = filter (is_live now) (queue_of p r.queues)

-- The message that `Enqueue` appends.
abbrev pub stamped : Time → String → Relay → QueuedMessage
stamped now body r = record {
  body = body;
  queued_at = now;
  expires_at = now + r.config.message_ttl;
}

live_later :
    (now t : Time) (q : List QueuedMessage)
    → now ≤ t
    → filter (is_live t) (filter (is_live now) q) ≡ filter (is_live t) q
live_later now t q h = filter-filter (is_live t) (is_live now) q (λ m k. ground arith)

queue_of-insert_self :
    (p : String) (q : List QueuedMessage) (m : Map (List QueuedMessage))
    → queue_of p (insert p q m) ≡ q
unfolding queue_of
queue_of-insert_self p q m = rw (lookup-insert_self p q m, queue_of)

queue_of-insert_ne :
    (p j : String) (q : List QueuedMessage) (m : Map (List QueuedMessage))
    → p ≢ j
    → queue_of j (insert p q m) ≡ queue_of j m
unfolding queue_of
queue_of-insert_ne p j q m h = rw (lookup-insert_ne p j q m h, queue_of)

-- `Enqueue` succeeds exactly when the mailbox has room. At any later instant the participant's
-- mailbox is then the old one with the message appended while it lives; after a failure it is the
-- old one. Other mailboxes, the registrations and the configuration stay as they are.
pub enqueue-mailbox :
    (now t : Time) (p body : String) (r : Relay)
    → now ≤ t
    → ((enqueue now p body r).0 ≡ not (leb r.config.max_queue_size (length (mailbox now p r))))
      × ((enqueue now p body r).0 ≡ true
          → mailbox t p (enqueue now p body r).1
            ≡ mailbox t p r ++ filter (is_live t) (stamped now body r ∷ []))
      × ((enqueue now p body r).0 ≡ false → mailbox t p (enqueue now p body r).1 ≡ mailbox t p r)
      × ((j : String) → p ≢ j → mailbox t j (enqueue now p body r).1 ≡ mailbox t j r)
      × ((enqueue now p body r).1.registrations ≡ r.registrations)
      × ((enqueue now p body r).1.config ≡ r.config)
unfolding enqueue
enqueue-mailbox now t p body r h =
    let live = mailbox now p r in
    elim (Bool-cases (leb r.config.max_queue_size (length live))) [
      | inl full ↦ rw full (
        refl,
        λ e. cc,
        λ _. rw (queue_of-insert_self p live r.queues) (live_later now t _ h),
        λ j ne. rw (queue_of-insert_ne p j live r.queues ne),
        refl,
        refl,
      )
      | inr room ↦ rw room (
        refl,
        λ _. rw (queue_of-insert_self p (live ++ stamped now body r ∷ []) r.queues) (
            filter-append (is_live t) live _
            ∙ ap (λ q. q ++ filter (is_live t) (stamped now body r ∷ [])) (live_later now t _ h)),
        λ e. cc,
        λ j ne. rw (queue_of-insert_ne p j (live ++ stamped now body r ∷ []) r.queues ne),
        refl,
        refl,
      )
    ]

queue_of-erase_self : (p : String) (m : Map (List QueuedMessage)) → queue_of p (erase p m) ≡ []
unfolding queue_of
queue_of-erase_self p m = rw (lookup-erase_self p m, queue_of)

queue_of-erase_ne :
    (p j : String) (m : Map (List QueuedMessage)) → p ≢ j → queue_of j (erase p m) ≡ queue_of j m
unfolding queue_of
queue_of-erase_ne p j m h = rw (lookup-erase_ne p j m h, queue_of)

drained-mailbox :
    (now t : Time) (p : String) (r : Relay) (q : List QueuedMessage)
    → queue_of p r.queues ≡ q
    → ((drained now p r q).0 ≡ mailbox now p r)
      × (mailbox t p (drained now p r q).1 ≡ [])
      × ((j : String) → p ≢ j → mailbox t j (drained now p r q).1 ≡ mailbox t j r)
      × ((drained now p r q).1.registrations ≡ r.registrations)
unfolding drained
drained-mailbox now t p r [] e = (rw e, rw e, λ j ne. refl, refl)
drained-mailbox now t p r (m ∷ q) e = (
  rw e,
  rw (queue_of-erase_self p r.queues),
  λ j ne. rw (queue_of-erase_ne p j r.queues ne),
  refl,
)

-- `Drain` returns the mailbox and empties it; the other mailboxes and the registrations stay as they
-- are.
pub drain-mailbox :
    (now t : Time) (p : String) (r : Relay)
    → ((drain now p r).0 ≡ mailbox now p r)
      × (mailbox t p (drain now p r).1 ≡ [])
      × ((j : String) → p ≢ j → mailbox t j (drain now p r).1 ≡ mailbox t j r)
      × ((drain now p r).1.registrations ≡ r.registrations)
unfolding drain
drain-mailbox now t p r = drained-mailbox now t p r (queue_of p r.queues) refl

unless_empty_or :
    (q : List QueuedMessage)
    → ◌≡◌ {A = List QueuedMessage} (elim (unless_empty q) [ none ↦ [] | some x ↦ x ]) q
unless_empty_or [] = refl
unless_empty_or (m ∷ q) = refl

queue_of-purge :
    (now : Time) (j : String) (r : Relay)
    → IsValid r
    → queue_of j (purge_expired now r).queues ≡ filter (is_live now) (queue_of j r.queues)
unfolding purge_expired queue_of
queue_of-purge now j r v =
    rw (lookup-purge_queues now j r.queues v.queued_once, queue_of)
      (elim (Option-cases (lookup j r.queues)) [
        | inl gone ↦ rw (gone, queue_of)
        | inr (q, there) ↦ rw (there, queue_of) (unless_empty_or (filter (is_live now) q))
      ])

-- Purging is invisible in every mailbox from the instant of the purge on.
pub mailbox-purge :
    (now t : Time) (j : String) (r : Relay)
    → IsValid r
    → now ≤ t
    → mailbox t j (purge_expired now r) ≡ mailbox t j r
mailbox-purge now t j r v h =
    ap (filter (is_live t)) (queue_of-purge now j r v) ∙ live_later now t _ h
