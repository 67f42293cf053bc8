-- ===== src/Channel/Order.antt =====
-- pkg/wmp/channel_transport.go: bounds and order of the two channels, and what a push can come to.
use mathlib.Core.List.{append-nil, append_assoc}
use go_wmp.Prelude.{
  ltb→lt, ℕ, ◌≤◌, ◌≡◌, ◌⊎◌, inl, inr, refl, ◌∙◌, sym, ap, String, true, List, [], ◌∷◌, ◌++◌, length,
  length-append, arith, Bool-cases, ltb,
}
use go_wmp.Channel.{
  ChannelTransport, new_channel_transport, Action, pushes, hands_in, reads, writes, hands_out,
  takes, push_fails, write_fails, read_fails, Step, push_sent, push_handed, push_closed, push_full,
  read_cancelled, read_closed, read_received, write_sent, write_handed, write_closed, write_full,
  out_taken, close, Reach, here, next,
}

-- What a single action adds.
abbrev pub pushed_by : Action → List String
pushed_by (pushes b) = b ∷ []
pushed_by (hands_in b) = b ∷ []
pushed_by _ = []

abbrev pub read_by : Action → List String
read_by (reads b) = b ∷ []
read_by (hands_in b) = b ∷ []
read_by _ = []

abbrev pub written_by : Action → List String
written_by (writes b) = b ∷ []
written_by (hands_out b) = b ∷ []
written_by _ = []

abbrev pub taken_by : Action → List String
taken_by (takes b) = b ∷ []
taken_by (hands_out b) = b ∷ []
taken_by _ = []

-- What a history adds, in the order of time.
abbrev pub over : (Action → List String) → List Action → List String
over f [] = []
over f (a ∷ past) = over f past ++ f a

-- A step keeps the sizes and the bounds, and moves messages through the channels in order.
pub record Moves (a : Action) (t u : ChannelTransport) : Type 0 where
  pub in_moved : t.incoming ++ pushed_by a ≡ read_by a ++ u.incoming
  pub out_moved : t.outgoing ++ written_by a ≡ taken_by a ++ u.outgoing
  pub in_bounded : length t.incoming ≤ t.in_size → length u.incoming ≤ u.in_size
  pub out_bounded : length t.outgoing ≤ t.out_size → length u.outgoing ≤ u.out_size
  pub in_size_same : u.in_size ≡ t.in_size
  pub out_size_same : u.out_size ≡ t.out_size
  pub stays_closed : t.is_closed ≡ true → u.is_closed ≡ true

Moves-in :
    (a : Action) (t : ChannelTransport) (q : List String)
    → written_by a ≡ []
    → taken_by a ≡ []
    → t.incoming ++ pushed_by a ≡ read_by a ++ q
    → (length t.incoming ≤ t.in_size → length q ≤ t.in_size)
    → Moves a t (record t { incoming = q })
Moves-in a t q w k moved bounded = record {
  in_moved = moved;
  out_moved = rw (w, k) (append-nil t.outgoing);
  in_bounded = bounded;
  out_bounded = λ h. h;
  in_size_same = refl;
  out_size_same = refl;
  stays_closed = λ c. c;
}

Moves-out :
    (a : Action) (t : ChannelTransport) (q : List String)
    → pushed_by a ≡ []
    → read_by a ≡ []
    → t.outgoing ++ written_by a ≡ taken_by a ++ q
    → (length t.outgoing ≤ t.out_size → length q ≤ t.out_size)
    → Moves a t (record t { outgoing = q })
Moves-out a t q p r moved bounded = record {
  in_moved = rw (p, r) (append-nil t.incoming);
  out_moved = moved;
  in_bounded = λ h. h;
  out_bounded = bounded;
  in_size_same = refl;
  out_size_same = refl;
  stays_closed = λ c. c;
}

Step-Moves : {a : Action} {t u : ChannelTransport} → Step t a u → Moves a t u
Step-Moves (push_sent t b room) =
    Moves-in (pushes b) t (t.incoming ++ b ∷ []) refl refl refl
      (λ h. omega (arith, room, length-append t.incoming (b ∷ [])))
Step-Moves (push_handed t b empty) =
    Moves-in (hands_in b) t t.incoming refl refl (rw empty refl) (λ h. h)
Step-Moves (push_closed t b c) =
    Moves-in (push_fails b) t t.incoming refl refl (append-nil t.incoming) (λ h. h)
Step-Moves (push_full t b c full) =
    Moves-in (push_fails b) t t.incoming refl refl (append-nil t.incoming) (λ h. h)
Step-Moves (read_cancelled t) =
    Moves-in read_fails t t.incoming refl refl (append-nil t.incoming) (λ h. h)
Step-Moves (read_closed t c) =
    Moves-in read_fails t t.incoming refl refl (append-nil t.incoming) (λ h. h)
Step-Moves (read_received t b rest there) =
    Moves-in (reads b) t rest refl refl (append-nil t.incoming ∙ there)
      (λ h. let count = ap length there in omega (arith, h, count))
Step-Moves (write_sent t b room) =
    Moves-out (writes b) t (t.outgoing ++ b ∷ []) refl refl refl
      (λ h. omega (arith, room, length-append t.outgoing (b ∷ [])))
Step-Moves (write_handed t b empty) =
    Moves-out (hands_out b) t t.outgoing refl refl (rw empty refl) (λ h. h)
Step-Moves (write_closed t b c) =
    Moves-out (write_fails b) t t.outgoing refl refl (append-nil t.outgoing) (λ h. h)
Step-Moves (write_full t b c full) =
    Moves-out (write_fails b) t t.outgoing refl refl (append-nil t.outgoing) (λ h. h)
Step-Moves (out_taken t b rest there) =
    Moves-out (takes b) t rest refl refl (append-nil t.outgoing ∙ there)
      (λ h. let count = ap length there in omega (arith, h, count))
Step-Moves (close t) = record {
  in_moved = append-nil t.incoming;
  out_moved = append-nil t.outgoing;
  in_bounded = λ h. h;
  out_bounded = λ h. h;
  in_size_same = refl;
  out_size_same = refl;
  stays_closed = λ c. refl;
}

-- Messages that went in are those that came out and those that wait, in this order.
shift :
    (ins ins' outs outs' q q' : List String)
    → ins ≡ outs ++ q
    → q ++ ins' ≡ outs' ++ q'
    → ins ++ ins' ≡ (outs ++ outs') ++ q'
shift ins ins' outs outs' q q' e moved =
    rw e (append_assoc outs q ins' ∙ ap (λ l. outs ++ l) moved ∙ sym (append_assoc outs outs' q'))

pub record IsInOrder (i o : ℕ) (past : List Action) (t : ChannelTransport) : Type 0 where
  pub in_order : over pushed_by past ≡ over read_by past ++ t.incoming
  pub out_order : over written_by past ≡ over taken_by past ++ t.outgoing
  pub in_fits : length t.incoming ≤ i
  pub out_fits : length t.outgoing ≤ o

record Keeps (i o : ℕ) (past : List Action) (t : ChannelTransport) : Type 0 where
  ordered : IsInOrder i o past t
  in_size_kept : t.in_size ≡ i
  out_size_kept : t.out_size ≡ o

keeps :
    {i o : ℕ} {past : List Action} {t : ChannelTransport}
    → Reach (new_channel_transport i o) past t
    → Keeps i o past t
unfolding new_channel_transport
keeps here = record {
  ordered = record {
    in_order = refl;
    out_order = refl;
    in_fits = omega arith;
    out_fits = omega arith;
  };
  in_size_kept = refl;
  out_size_kept = refl;
}
keeps (next r s) =
    let k = keeps r in
    let m = Step-Moves s in
    let v = k.ordered in
    record {
      ordered = record {
        in_order = shift _ _ _ _ _ _ v.in_order m.in_moved;
        out_order = shift _ _ _ _ _ _ v.out_order m.out_moved;
        in_fits =
            let b = m.in_bounded (omega (arith, v.in_fits, k.in_size_kept)) in
            omega (arith, b, m.in_size_same, k.in_size_kept);
        out_fits =
            let b = m.out_bounded (omega (arith, v.out_fits, k.out_size_kept)) in
            omega (arith, b, m.out_size_same, k.out_size_kept);
      };
      in_size_kept = m.in_size_same ∙ k.in_size_kept;
      out_size_kept = m.out_size_same ∙ k.out_size_kept;
    }

-- In every history of a new transport, the messages that were pushed are those that were read, in the
-- order of the pushes, and behind them those that wait, and likewise those written and taken; no
-- channel holds more than its size.
pub channels-IsInOrder :
    (i o : ℕ) (past : List Action) (t : ChannelTransport)
    → Reach (new_channel_transport i o) past t
    → IsInOrder i o past t
channels-IsInOrder i o past t r = (keeps r).ordered

stays_closed_after :
    {s t : ChannelTransport} {past : List Action}
    → Reach s past t
    → s.is_closed ≡ true
    → t.is_closed ≡ true
stays_closed_after here c = c
stays_closed_after (next r s) c = (Step-Moves s).stays_closed (stays_closed_after r c)

why_push_fails :
    {t u : ChannelTransport} {a : Action}
    → Step t a u
    → (b : String) → a ≡ push_fails b
    → (u ≡ t) × ((t.is_closed ≡ true) ⊎ (t.in_size ≤ length t.incoming))
why_push_fails (push_closed t b c) b' e = (refl, inl c)
why_push_fails (push_full t b c full) b' e = (refl, inr full)
why_push_fails (push_sent t b room) b' e = absurd (cc e)
why_push_fails (push_handed t b empty) b' e = absurd (cc e)
why_push_fails (read_cancelled t) b' e = absurd (cc e)
why_push_fails (read_closed t c) b' e = absurd (cc e)
why_push_fails (read_received t b rest there) b' e = absurd (cc e)
why_push_fails (write_sent t b room) b' e = absurd (cc e)
why_push_fails (write_handed t b empty) b' e = absurd (cc e)
why_push_fails (write_closed t b c) b' e = absurd (cc e)
why_push_fails (write_full t b c full) b' e = absurd (cc e)
why_push_fails (out_taken t b rest there) b' e = absurd (cc e)
why_push_fails (close t) b' e = absurd (cc e)

push_possible :
    (t : ChannelTransport) (b : String)
    → ((u : ChannelTransport) × Step t (pushes b) u) ⊎ Step t (push_fails b) t
push_possible t b = elim (Bool-cases (ltb (length t.incoming) t.in_size)) [
  | inl room ↦ inl (_, push_sent t b (ltb→lt _ _ room))
  | inr full ↦ elim (Bool-cases t.is_closed) [
    | inl closed ↦ inr (push_closed t b closed)
    | inr still_open ↦ inr (push_full t b still_open (ground arith))
  ]
]

-- In every state that a history from `s` leads to, a push can return; it fails only on a closed
-- transport or at a full channel, and then changes nothing. If `s` was closed, the state is closed.
pub push_returns :
    (s t : ChannelTransport) (past : List Action) (b : String)
    → Reach s past t
    → (((u : ChannelTransport) × Step t (pushes b) u) ⊎ Step t (push_fails b) t)
      × ((u : ChannelTransport)
          → Step t (push_fails b) u
          → (u ≡ t) × ((t.is_closed ≡ true) ⊎ (t.in_size ≤ length t.incoming)))
      × (s.is_closed ≡ true → t.is_closed ≡ true)
push_returns s t past b r =
    (push_possible t b, λ u failed. why_push_fails failed b refl, λ c. stays_closed_after r c)
