-- ===== src/Peer/Calls/Delivery.antt =====
-- Each call gets at most one response, and the read loop never waits for a call.
use go_wmp.Peer.Calls.{
  initial, run, sends_on_channel, arrives, gives_up, receives, send_fails, sent, begins, Event,
  begin, step, fail_sending, finish_sending, give_up, receive_response, send_on_channel, take_entry,
  waiting, received, received, waiting, Calls, take_for,
}
use go_wmp.Jsonrpc.{Response}
use go_wmp.Prelude.{
  ◌≢◌, ◌≡◌, ◌≤◌, refl, ℕ, ◌+◌, String, none, some, List, [], ◌∷◌, ◌==◌, arith, inl, inr, Bool-cases,
}
use go_wmp.Prelude.Maps.{Map, lookup}
use go_wmp.Peer.Calls.Tokens.{
  tokens, entries_of, inflight_of, entries_of-erase_found, inflight_of-take_for, step-tokens,
  begin-tokens,
}

-- Every call that has begun has one token at most, and no other call has any.
record IsSound (s : Calls) : Type 0 where
  once : (n : ℕ) → tokens n s ≤ 1
  fresh : (n : ℕ) → s.next ≤ n → tokens n s ≡ 0

other_event-next :
    (e : Event) (s : Calls) → ((id : String) → e ≢ begins id) → (step e s).next ≡ s.next
unfolding step finish_sending fail_sending give_up receive_response take_entry send_on_channel
other_event-next (begins id) s other = absurd (other id refl)
other_event-next (sent k) s other = ground arith
other_event-next (send_fails k) s other = ground arith
other_event-next (receives k) s other = ground arith
other_event-next (gives_up k) s other = ground arith
other_event-next (arrives id r) s other = ground arith
other_event-next (sends_on_channel k) s other = ground arith

begin-IsSound : (id : String) (s : Calls) → IsSound s → IsSound (begin id s)
unfolding begin
begin-IsSound id s v = record {
  once = λ n.
      let more = begin-tokens n s id in
      let one = v.once n in
      elim (Bool-cases (s.next == n)) [
        | inl new ↦
            let reached : s.next ≤ n = ground arith in
            let none_yet = v.fresh n reached in ground arith
        | inr old ↦ ground arith
      ];
  fresh = λ n later.
      let more = begin-tokens n s id in
      let passed : s.next + 1 ≤ n = later in
      let reached : s.next ≤ n = omega arith in let none_yet = v.fresh n reached in ground arith;
}

other_event-IsSound :
    (e : Event) (s : Calls) → ((id : String) → e ≢ begins id) → IsSound s → IsSound (step e s)
other_event-IsSound e s other v = record {
  once = λ n. let fewer = step-tokens n s e other in let one = v.once n in omega arith;
  fresh = λ n later.
      let fewer = step-tokens n s e other in
      let nothing = v.fresh n (rw (other_event-next e s other) at later) in omega arith;
}

step-IsSound : (e : Event) (s : Calls) → IsSound s → IsSound (step e s)
step-IsSound (begins id) s v = unfold step in begin-IsSound id s v
step-IsSound (sent k) s v = other_event-IsSound (sent k) s (λ id e. cc) v
step-IsSound (send_fails k) s v = other_event-IsSound (send_fails k) s (λ id e. cc) v
step-IsSound (receives k) s v = other_event-IsSound (receives k) s (λ id e. cc) v
step-IsSound (gives_up k) s v = other_event-IsSound (gives_up k) s (λ id e. cc) v
step-IsSound (arrives id r) s v = other_event-IsSound (arrives id r) s (λ i e. cc) v
step-IsSound (sends_on_channel k) s v = other_event-IsSound (sends_on_channel k) s (λ id e. cc) v

run-IsSound : (es : List Event) (s : Calls) → IsSound s → IsSound (run es s)
unfolding run
run-IsSound [] s v = v
run-IsSound (e ∷ es) s v = run-IsSound es (step e s) (step-IsSound e s v)

initial-IsSound : IsSound initial
unfolding initial entries_of inflight_of
initial-IsSound = record { once = λ n. omega arith; fresh = λ n later. refl }

-- In every interleaving of steps from the start, a call has at most one of: an entry in the pending
-- map, a response on its way, a response in its channel, and a response received. So no call is
-- answered twice, and it has one entry at most.
pub calls_answered_once : (es : List Event) (n : ℕ) → tokens n (run es initial) ≤ 1
calls_answered_once es n = (run-IsSound es initial initial-IsSound).once n

-- In every interleaving, while a response is on its way to a call the call's channel is empty: the
-- send in `handleResponse`, and the read loop with it, does not wait for the call.
pub delivery_never_blocks :
    (es : List Event) (n : ℕ) (r : Response) (rest : List (ℕ × Response))
    → take_for n (run es initial).inflight ≡ some (r, rest)
    → (run es initial).channel n ≡ none
delivery_never_blocks es n r rest there =
    let one = calls_answered_once es n in
    let found = inflight_of-take_for n n (run es initial).inflight rest r there in ground arith

entries_of-found : (n : ℕ) (id : String) (m : Map ℕ) → lookup id m ≡ some n → 1 ≤ entries_of n m
entries_of-found n id m there = let fewer = entries_of-erase_found n n id m there in ground arith

completes :
    (s : Calls) (n : ℕ) (id : String) (r : Response)
    → s.stage n ≡ waiting id
    → lookup id s.pending ≡ some n
    → s.channel n ≡ none
    → (run (arrives id r ∷ sends_on_channel n ∷ receives n ∷ []) s).stage n ≡ received r
unfolding run step take_entry send_on_channel receive_response take_for
completes s n id r waits there empty =
    simp (there, take_entry, send_on_channel, receive_response, take_for) (ground arith)

-- In every interleaving, once a call waits and the pending map leads from its id to it, a response
-- that arrives under this id, is sent on the channel and is received ends the call with this response.
pub call_completes :
    (es : List Event) (n : ℕ) (id : String) (r : Response)
    → (run es initial).stage n ≡ waiting id
    → lookup id (run es initial).pending ≡ some n
    → (run (arrives id r ∷ sends_on_channel n ∷ receives n ∷ []) (run es initial)).stage n
      ≡ received r
call_completes es n id r waits there =
    let one = calls_answered_once es n in
    let entry = entries_of-found n id (run es initial).pending there in
    let empty : (run es initial).channel n ≡ none = ground arith in
    completes (run es initial) n id r waits there empty
