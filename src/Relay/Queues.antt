-- ===== src/Relay/Queues.antt =====
-- The bound on the offline queues, over every history of calls.
use go_wmp.Prelude.{
  ap, str_eq, ◌∙◌, ℕ, ◌+◌, ◌≤◌, ◌≡◌, refl, String, false, Option, none, some, List, [], ◌∷◌, arith,
  eq_iff, Option-cases, Bool-cases, inl, inr, leb, length, length-append, filter, length-filter-le,
  All, if◌then◌else◌,
}
use go_wmp.Prelude.Maps.{
  Map, lookup, insert, HasDistinctKeys, insert-HasDistinctKeys, erase-HasDistinctKeys,
  retain-HasDistinctKeys, All-insert, All-erase, All-lookup,
}
use go_wmp.Types.Json.{Raw, Time}
use go_wmp.Types.Message.{RelayRegisterParams}
use go_wmp.Relay.{
  unmarshal, drained, Relay, Config, QueuedMessage, new, register, handle_method, is_live, queue_of,
  enqueue, drain, unregister, purge_queues, purge_expired,
}

abbrev pub FitsIn : ℕ → Map (List QueuedMessage) → Type 0
FitsIn limit queues = All (λ (e : String × List QueuedMessage). length e.1 ≤ limit) queues

-- Both maps have distinct keys, and no queue is longer than the configured size.
pub record IsValid (r : Relay) : Type 0 where
  pub registered_once : HasDistinctKeys r.registrations
  pub queued_once : HasDistinctKeys r.queues
  pub bounded : FitsIn r.config.max_queue_size r.queues

-- `PurgeExpired` on one queue: what is left of it, or nothing.
abbrev pub unless_empty : List QueuedMessage → Option (List QueuedMessage)
unless_empty [] = none
unless_empty (x ∷ xs) = some (x ∷ xs)

abbrev pub purged : Time → Option (List QueuedMessage) → Option (List QueuedMessage)
purged now none = none
purged now (some q) = unless_empty (filter (is_live now) q)

abbrev put_back : String → List QueuedMessage → Map (List QueuedMessage) → Map (List QueuedMessage)
put_back id [] rest = rest
put_back id (x ∷ xs) rest = (id, x ∷ xs) ∷ rest

purge_queues-cons :
    (now : Time) (id : String) (q : List QueuedMessage) (m : Map (List QueuedMessage))
    → purge_queues now ((id, q) ∷ m) ≡ put_back id (filter (is_live now) q) (purge_queues now m)
unfolding purge_queues
purge_queues-cons now id q m = ground arith

lookup-put_back :
    (j id : String) (q : List QueuedMessage) (m : Map (List QueuedMessage))
    → lookup id m ≡ none
    → lookup j (put_back id q m) ≡ (if str_eq id j then unless_empty q else lookup j m)
unfolding lookup
lookup-put_back j id [] m h = ground (arith, eq_iff id j)
lookup-put_back j id (x ∷ xs) m h = refl

pub lookup-purge_queues :
    (now : Time) (j : String) (m : Map (List QueuedMessage))
    → HasDistinctKeys m
    → lookup j (purge_queues now m) ≡ purged now (lookup j m)
unfolding lookup
lookup-purge_queues now j [] h = unfold purge_queues in refl
lookup-purge_queues now j ((id, q) ∷ m) (fresh, h) =
    rw
      (
        purge_queues-cons now id q m,
        lookup-put_back j id (filter (is_live now) q) (purge_queues now m)
            (lookup-purge_queues now id m h ∙ ap (purged now) fresh),
      )
      (elim (Bool-cases (str_eq id j)) [
        | inl same ↦ rw same
        | inr other ↦ rw other (lookup-purge_queues now j m h)
      ])

put_back-HasDistinctKeys :
    (id : String) (xs : List QueuedMessage) (m : Map (List QueuedMessage))
    → lookup id m ≡ none
    → HasDistinctKeys m
    → HasDistinctKeys (put_back id xs m)
put_back-HasDistinctKeys id [] m fresh h = h
put_back-HasDistinctKeys id (x ∷ xs) m fresh h = (fresh, h)

put_back-FitsIn :
    (n : ℕ) (id : String) (xs : List QueuedMessage) (m : Map (List QueuedMessage))
    → length xs ≤ n
    → FitsIn n m
    → FitsIn n (put_back id xs m)
put_back-FitsIn n id [] m fits h = h
put_back-FitsIn n id (x ∷ xs) m fits h = (fits, h)

purge_queues-HasDistinctKeys :
    (now : Time) (m : Map (List QueuedMessage))
    → HasDistinctKeys m
    → HasDistinctKeys (purge_queues now m)
purge_queues-HasDistinctKeys now [] h = unfold purge_queues in tt
purge_queues-HasDistinctKeys now ((id, q) ∷ m) (fresh, h) = rw (purge_queues-cons now id q m) (
    put_back-HasDistinctKeys id _ _ (lookup-purge_queues now id m h ∙ ap (purged now) fresh)
      (purge_queues-HasDistinctKeys now m h))

purge_queues-FitsIn :
    (now : Time) (n : ℕ) (m : Map (List QueuedMessage)) → FitsIn n m → FitsIn n (purge_queues now m)
purge_queues-FitsIn now n [] h = unfold purge_queues in tt
purge_queues-FitsIn now n ((id, q) ∷ m) (fits, h) = rw (purge_queues-cons now id q m) (
    put_back-FitsIn n id (filter (is_live now) q) _
      (omega (arith, length-filter-le (is_live now) q)) (purge_queues-FitsIn now n m h))

length-queue_of :
    (p : String) (n : ℕ) (m : Map (List QueuedMessage)) → FitsIn n m → length (queue_of p m) ≤ n
unfolding queue_of
length-queue_of p n m h = elim (Option-cases (lookup p m)) [
  | inl gone ↦ rw (gone, queue_of) (omega arith)
  | inr (q, there) ↦ rw (there, queue_of) (All-lookup (λ x. length x ≤ n) p m q h there)
]

below : (a b : ℕ) → leb a b ≡ false → b + 1 ≤ a
below a b h = ground arith

keep-IsValid :
    (p : String) (q : List QueuedMessage) (r : Relay)
    → IsValid r
    → length q ≤ r.config.max_queue_size
    → IsValid (record r { queues = insert p q r.queues })
keep-IsValid p q r v fits = record {
  registered_once = v.registered_once;
  queued_once = insert-HasDistinctKeys p q r.queues v.queued_once;
  bounded = All-insert (λ x. length x ≤ r.config.max_queue_size) p q r.queues v.bounded fits;
}

-- The methods that change the relay, with their arguments.
pub data Call : Type 0 where
  handles : String → Raw → Call
  enqueues : String → String → Call
  drains unregisters : String → Call
  purges : Call

module _ (decode : String → Option RelayRegisterParams) where
  pub step : Relay → Time × Call → Relay
  step r (now, handles method params) = (handle_method decode now method params r).1
  step r (now, enqueues p body) = (enqueue now p body r).1
  step r (now, drains p) = (drain now p r).1
  step r (now, unregisters p) = unregister p r
  step r (now, purges) = purge_expired now r

  pub run : Relay → List (Time × Call) → Relay
  run r [] = r
  run r (c ∷ cs) = run (step r c) cs

  register-IsValid : (now : Time) (p : String) (r : Relay) → IsValid r → IsValid (register now p r)
  unfolding register
  register-IsValid now p r v = record {
    registered_once = insert-HasDistinctKeys p _ r.registrations v.registered_once;
    queued_once = v.queued_once;
    bounded = v.bounded;
  }

  handle_method-IsValid :
      (now : Time) (method : String) (params : Raw) (r : Relay)
      → IsValid r
      → IsValid (handle_method decode now method params r).1
  unfolding handle_method
  handle_method-IsValid now method params r v =
      elim (Bool-cases (str_eq method "wmp.relay.register")) [
        | inr other ↦ rw (other, handle_method) v
        | inl same ↦ elim (Option-cases (unmarshal decode params)) [
          | inl bad ↦ rw (same, bad, handle_method) v
          | inr (p, good) ↦ elim (Bool-cases (str_eq p.wmp.sender "")) [
            | inl empty ↦ rw (same, good, empty, handle_method) v
            | inr named ↦
                rw (same, good, named, handle_method) (register-IsValid now p.wmp.sender r v)
          ]
        ]
      ]

  enqueue-IsValid :
      (now : Time) (p body : String) (r : Relay) → IsValid r → IsValid (enqueue now p body r).1
  unfolding enqueue
  enqueue-IsValid now p body r v =
      let live = filter (is_live now) (queue_of p r.queues) in
      elim (Bool-cases (leb r.config.max_queue_size (length live))) [
        | inl full ↦ rw full (
            keep-IsValid p live r v (
              omega (
                arith,
                length-filter-le (is_live now) (queue_of p r.queues),
                length-queue_of p r.config.max_queue_size r.queues v.bounded,
              )))
        | inr room ↦ rw room (
            keep-IsValid p _ r v (
              omega (
                arith,
                length-append live (_ ∷ []),
                below r.config.max_queue_size (length live) room,
              )))
      ]

  drain-IsValid : (now : Time) (p : String) (r : Relay) → IsValid r → IsValid (drain now p r).1
  unfolding drain
  drain-IsValid now p r v = elim (queue_of p r.queues) as (λ q. IsValid (drained now p r q).1) [
    | [] ↦ v
    | m ∷ q ↦ record {
      registered_once = v.registered_once;
      queued_once = erase-HasDistinctKeys p r.queues v.queued_once;
      bounded = All-erase (λ x. length x ≤ r.config.max_queue_size) p r.queues v.bounded;
    }
  ]

  purge-IsValid : (now : Time) (r : Relay) → IsValid r → IsValid (purge_expired now r)
  unfolding purge_expired
  purge-IsValid now r v = record {
    registered_once = retain-HasDistinctKeys _ r.registrations v.registered_once;
    queued_once = purge_queues-HasDistinctKeys now r.queues v.queued_once;
    bounded = purge_queues-FitsIn now r.config.max_queue_size r.queues v.bounded;
  }

  step-IsValid : (r : Relay) (c : Time × Call) → IsValid r → IsValid (step r c)
  unfolding step
  step-IsValid r (now, handles method params) v = handle_method-IsValid now method params r v
  step-IsValid r (now, enqueues p body) v = enqueue-IsValid now p body r v
  step-IsValid r (now, drains p) v = drain-IsValid now p r v
  step-IsValid r (now, unregisters p) v =
      unfold unregister in
      record {
        registered_once = erase-HasDistinctKeys p r.registrations v.registered_once;
        queued_once = v.queued_once;
        bounded = v.bounded;
      }
  step-IsValid r (now, purges) v = purge-IsValid now r v

  run-IsValid : (r : Relay) (cs : List (Time × Call)) → IsValid r → IsValid (run r cs)
  unfolding run
  run-IsValid r [] v = v
  run-IsValid r (c ∷ cs) v = run-IsValid (step r c) cs (step-IsValid r c v)

  -- After any history of calls on a new relay each participant has one registration and one queue at
  -- most, and no queue is longer than the configured size.
  pub run-new-IsValid : (c : Config) (cs : List (Time × Call)) → IsValid (run (new c) cs)
  unfolding new
  run-new-IsValid c cs =
      run-IsValid (new c) cs (record { registered_once = tt; queued_once = tt; bounded = tt })
