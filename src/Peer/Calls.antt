-- ===== src/Peer/Calls.antt =====
-- pkg/wmp/peer.go, `CallWithID` and `handleResponse`: the pending calls. Each section under the mutex,
-- each operation on a channel and each arm of the `select` is a step of its own; the steps of all
-- calls and of the read loop interleave in any order. Calls are numbered as they begin.
pub mod Tokens
pub mod Delivery
mod Examples
use go_wmp.Prelude.{ℕ, ◌+◌, String, Bool, Option, none, some, List, [], ◌∷◌, if◌then◌else◌, ◌==◌}
use go_wmp.Prelude.Maps.{Map, lookup, insert, erase}
use go_wmp.Jsonrpc.{Response}

-- Where a call stands: before its entry is made, before `sendJSON` returns, in the `select`, after a
-- failure to send or the end of its context, or with the response that it received.
pub data Stage : Type 0 where
  idle ended : Stage
  sending waiting : String → Stage
  received : Response → Stage

-- The pending map leads from request ids to calls; `inflight` holds the responses whose entry
-- `handleResponse` has removed and that it has not sent on the channel yet; a channel has room for
-- one response.
pub record Calls : Type 0 where
  pub pending : Map ℕ
  pub inflight : List (ℕ × Response)
  pub channel : ℕ → Option Response
  pub stage : ℕ → Stage
  pub next : ℕ

pub data Event : Type 0 where
  begins : String → Event
  sent send_fails receives gives_up sends_on_channel : ℕ → Event
  arrives : String → Response → Event

abbrev pub set {ℓ} : {A : Type ℓ} → ℕ → A → (ℕ → A) → ℕ → A
set n a f k = if k == n then a else f k

-- The response for the call, and the other ones.
unfoldable pub take_for : ℕ → List (ℕ × Response) → Option (Response × List (ℕ × Response))
take_for n [] = none
take_for n ((k, r) ∷ rs) =
    let rest = take_for n rs in
    if k == n
    then some (r, rs)
    else elim rest [ none ↦ none | some (x, xs) ↦ some (x, (k, r) ∷ xs) ]

unfoldable pub initial : Calls
initial = record { pending = []; inflight = []; channel = λ _. none; stage = λ _. idle; next = 0 }

-- `ch := make(chan *Response, 1)`, and its entry.
unfoldable pub begin : String → Calls → Calls
begin id s = record s {
  pending = insert id s.next s.pending;
  channel = set s.next none s.channel;
  stage = set s.next (sending id) s.stage;
  next = s.next + 1;
}

-- `sendJSON` has returned nil.
unfoldable pub finish_sending : ℕ → Calls → Calls
finish_sending n s = elim (s.stage n) [
  | sending id ↦ record s { stage = set n (waiting id) s.stage }
  | _ ↦ s
]

-- `sendJSON` has failed: the entry under the id is deleted.
unfoldable pub fail_sending : ℕ → Calls → Calls
fail_sending n s = elim (s.stage n) [
  | sending id ↦ record s { pending = erase id s.pending; stage = set n ended s.stage }
  | _ ↦ s
]

-- `<-ctx.Done()`: the same, from the `select`.
unfoldable pub give_up : ℕ → Calls → Calls
give_up n s = elim (s.stage n) [
  | waiting id ↦ record s { pending = erase id s.pending; stage = set n ended s.stage }
  | _ ↦ s
]

-- `resp := <-ch`; an empty channel makes the call wait.
unfoldable pub receive_response : ℕ → Calls → Calls
receive_response n s = elim (s.stage n) [
  | waiting id ↦ elim (s.channel n) [
    | some r ↦ record s { channel = set n none s.channel; stage = set n (received r) s.stage }
    | none ↦ s
  ]
  | _ ↦ s
]

-- `handleResponse` under the mutex; `id` is `raw_id_to_string` of the response's id.
unfoldable pub take_entry : String → Response → Calls → Calls
take_entry id r s = elim (lookup id s.pending) [
  | some n ↦ record s { pending = erase id s.pending; inflight = (n, r) ∷ s.inflight }
  | none ↦ s
]

-- `ch <- resp`; a full channel makes it wait.
unfoldable pub send_on_channel : ℕ → Calls → Calls
unfolding take_for
send_on_channel n s = elim (take_for n s.inflight) [
  | none ↦ s
  | some (r, rest) ↦ elim (s.channel n) [
    | none ↦ record s { inflight = rest; channel = set n (some r) s.channel }
    | some old ↦ s
  ]
]

unfoldable pub step : Event → Calls → Calls
unfolding begin finish_sending fail_sending give_up receive_response take_entry send_on_channel
step (begins id) s = begin id s
step (sent n) s = finish_sending n s
step (send_fails n) s = fail_sending n s
step (receives n) s = receive_response n s
step (gives_up n) s = give_up n s
step (arrives id r) s = take_entry id r s
step (sends_on_channel n) s = send_on_channel n s

unfoldable pub run : List Event → Calls → Calls
unfolding step
run [] s = s
run (e ∷ es) s = run es (step e s)
