-- ===== src/Peer/Calls/Tokens.antt =====
-- What a call can still get: its entries, the responses on their way, its channel, and what it got.
use go_wmp.Peer.Calls.{
  sends_on_channel, arrives, gives_up, receives, send_fails, sent, begins, Event, begin, step,
  fail_sending, finish_sending, give_up, receive_response, send_on_channel, take_entry, idle, ended,
  sending, waiting, received, received, waiting, sending, Calls, Stage, take_for,
}
use go_wmp.Jsonrpc.{Response}
use go_wmp.Prelude.{
  ◌≢◌, is_some, str_eq, ◌≡◌, ◌≤◌, refl, ℕ, ◌+◌, String, Bool, true, false, some, List, [], ◌∷◌,
  ◌==◌, arith, inl, inr, Bool-cases, Option-cases,
}
use go_wmp.Prelude.Maps.{Map, lookup, insert, erase}

-- 1 for `true`.
abbrev pub one_if : Bool → ℕ
one_if true = 1
one_if false = 0

unfoldable pub entries_of : ℕ → Map ℕ → ℕ
entries_of n [] = 0
entries_of n ((id, k) ∷ m) = one_if (k == n) + entries_of n m

unfoldable pub inflight_of : ℕ → List (ℕ × Response) → ℕ
inflight_of n [] = 0
inflight_of n ((k, r) ∷ rs) = one_if (k == n) + inflight_of n rs

abbrev pub has_received : Stage → Bool
has_received idle = false
has_received ended = false
has_received (sending id) = false
has_received (waiting id) = false
has_received (received r) = true

-- The responses that a call can still get or has got: its entries, what is on its way, in its
-- channel and received.
abbrev pub tokens : ℕ → Calls → ℕ
tokens n s =
    entries_of n s.pending
    + inflight_of n s.inflight
    + one_if (is_some (s.channel n))
    + one_if (has_received (s.stage n))

entries_of-insert :
    (n k : ℕ) (id : String) (m : Map ℕ)
    → entries_of n (insert id k m) ≤ entries_of n m + one_if (k == n)
unfolding entries_of insert
entries_of-insert n k id [] = omega arith
entries_of-insert n k id ((name, x) ∷ m) = let ih = entries_of-insert n k id m in ground arith

entries_of-erase : (n : ℕ) (id : String) (m : Map ℕ) → entries_of n (erase id m) ≤ entries_of n m
unfolding entries_of erase
entries_of-erase n id [] = omega arith
entries_of-erase n id ((name, x) ∷ m) = let ih = entries_of-erase n id m in ground arith

-- The entry that is erased was one of its call's.
pub entries_of-erase_found :
    (n k : ℕ) (id : String) (m : Map ℕ)
    → lookup id m ≡ some k
    → entries_of n (erase id m) + one_if (k == n) ≤ entries_of n m
unfolding entries_of erase lookup
entries_of-erase_found n k id [] h = cc
entries_of-erase_found n k id ((name, x) ∷ m) h = elim (Bool-cases (str_eq name id)) [
  | inl same ↦ let eq : x ≡ k = ground arith in let less = entries_of-erase n id m in ground arith
  | inr other ↦ let ih = entries_of-erase_found n k id m in ground arith
]

pub inflight_of-take_for :
    (n k : ℕ) (rs rest : List (ℕ × Response)) (r : Response)
    → take_for k rs ≡ some (r, rest)
    → inflight_of n rest + one_if (k == n) ≡ inflight_of n rs
unfolding inflight_of take_for
inflight_of-take_for n k [] rest r h = cc
inflight_of-take_for n k ((j, x) ∷ rs) rest r h = elim (Bool-cases (j == k)) [
  | inl same ↦ ground arith
  | inr other ↦ elim (Option-cases (take_for k rs)) [
    | inl gone ↦ absurd (cc (rw (other, gone, take_for) at h))
    | inr ((y, ys), there) ↦
        let ih = inflight_of-take_for n k rs ys y there in
        let eq : (j, x) ∷ ys ≡ rest = ground arith in ground arith
  ]
]

-- A step that begins no call gives no call a token.
module _ (n : ℕ) (s : Calls) where
  finish_sending-tokens : (k : ℕ) → tokens n (finish_sending k s) ≤ tokens n s
  unfolding finish_sending
  finish_sending-tokens k = ground arith

  fail_sending-tokens : (k : ℕ) → tokens n (fail_sending k s) ≤ tokens n s
  unfolding fail_sending
  fail_sending-tokens k = go (s.stage k) refl
    where
      go : (x : Stage) → s.stage k ≡ x → tokens n (fail_sending k s) ≤ tokens n s
      go (sending id) at_id = let fewer = entries_of-erase n id s.pending in ground arith
      go idle e = ground arith
      go ended e = ground arith
      go (waiting id) e = ground arith
      go (received r) e = ground arith

  give_up-tokens : (k : ℕ) → tokens n (give_up k s) ≤ tokens n s
  unfolding give_up
  give_up-tokens k = go (s.stage k) refl
    where
      go : (x : Stage) → s.stage k ≡ x → tokens n (give_up k s) ≤ tokens n s
      go (waiting id) at_id = let fewer = entries_of-erase n id s.pending in ground arith
      go idle e = ground arith
      go ended e = ground arith
      go (sending id) e = ground arith
      go (received r) e = ground arith

  receive_response-tokens : (k : ℕ) → tokens n (receive_response k s) ≤ tokens n s
  unfolding receive_response
  receive_response-tokens k = ground arith

  take_entry-tokens : (id : String) (r : Response) → tokens n (take_entry id r s) ≤ tokens n s
  unfolding take_entry inflight_of
  take_entry-tokens id r = elim (Option-cases (lookup id s.pending)) [
    | inl gone ↦ ground arith
    | inr (k, there) ↦
        let fewer = entries_of-erase_found n k id s.pending there in
        simp (there, take_entry) (ground arith)
  ]

  send_on_channel-tokens : (k : ℕ) → tokens n (send_on_channel k s) ≤ tokens n s
  unfolding send_on_channel
  send_on_channel-tokens k = elim (Option-cases (take_for k s.inflight)) [
    | inl gone ↦ ground arith
    | inr ((r, rest), there) ↦
        let fewer = inflight_of-take_for n k s.inflight rest r there in ground arith
  ]

  pub step-tokens : (e : Event) → ((id : String) → e ≢ begins id) → tokens n (step e s) ≤ tokens n s
  unfolding step
  step-tokens (begins id) other = absurd (other id refl)
  step-tokens (sent k) other = finish_sending-tokens k
  step-tokens (send_fails k) other = fail_sending-tokens k
  step-tokens (receives k) other = receive_response-tokens k
  step-tokens (gives_up k) other = give_up-tokens k
  step-tokens (arrives id r) other = take_entry-tokens id r
  step-tokens (sends_on_channel k) other = send_on_channel-tokens k

  pub begin-tokens : (id : String) → tokens n (begin id s) ≤ tokens n s + one_if (s.next == n)
  unfolding begin
  begin-tokens id = let more = entries_of-insert n s.next id s.pending in ground arith
