-- ===== src/Httpsse/Replay.antt =====
-- pkg/wmp/httpsse/httpsse.go, `replayAfter`: what is replayed from the buffer.
use go_wmp.Httpsse.Buffer.{
  drop-numbered, length-numbered, buffer_all-Holds, drop-drop, Holds, buffer_all, numbered,
  IsFormat,
}
use text.Mathlib.TextPositions.{eq_refl}
use go_wmp.Prelude.{
  ltb→lt, ◌≢◌, ◌≡◌, refl, ◌∙◌, sym, ap, ℕ, zero, suc, ◌+◌, ◌-◌, ◌≤◌, ◌<◌, String, true, false, List,
  [], ◌∷◌, arith, if◌then◌else◌, str_eq, eq_iff, ltb, length, length-drop, drop, Bool-cases, inl,
  inr,
}
use go_wmp.Httpsse.{
  positive_or, ℤ, ServerSession, new_server_session, two_to_64, events_after, replay_after,
}

module _ (event_id : ℕ → String) (format : IsFormat event_id) where
  other_test :
      (a b : ℕ) → a ≢ b → a < two_to_64 → b < two_to_64 → str_eq (event_id a) (event_id b) ≡ false
  other_test a b other fits fits' = elim (Bool-cases (str_eq (event_id a) (event_id b))) [
    | inr differ ↦ differ
    | inl same ↦
        absurd (other (format.injective a b fits fits' ((eq_iff (event_id a) (event_id b)).0 same)))
  ]

  -- Another number's event is not found.
  events_after_other :
      (k n : ℕ) (bs : List String)
      → k ≤ n
      → n + length bs < two_to_64
      → events_after (event_id k) (numbered event_id n bs) ≡ []
  unfolding events_after
  events_after_other k n [] before fits = refl
  events_after_other k n (b ∷ bs) before fits =
      rw
        (other_test (n + 1) k (λ e. absurd (omega (arith, e, before))) (omega (arith, fits))
          (omega (arith, before, fits)))
        (events_after_other k (n + 1) bs (omega (arith, before)) (omega (arith, fits)))

  events_after-numbered :
      (i n k : ℕ) (bs : List String)
      → k ≡ n + i + 1
      → i < length bs
      → n + length bs < two_to_64
      → events_after (event_id k) (numbered event_id n bs) ≡ numbered event_id k (drop (i + 1) bs)
  unfolding events_after
  events_after-numbered i n k [] index inside fits = absurd (omega (arith, inside))
  events_after-numbered zero n k (b ∷ []) index inside fits =
      let e : k ≡ n + 1 = omega (arith, index) in rw (e, eq_refl (event_id (n + 1))) refl
  events_after-numbered zero n k (b ∷ a ∷ bs) index inside fits =
      let e : k ≡ n + 1 = omega (arith, index) in
      let some_left : ltb 0 (suc (length (numbered event_id (n + 1 + 1) bs))) ≡ true =
        ground arith in
      rw (e, eq_refl (event_id (n + 1)), some_left) refl
  events_after-numbered (suc i) n k (b ∷ bs) index inside fits =
      let differ : str_eq (event_id (n + 1)) (event_id k) ≡ false =
        other_test (n + 1) k (λ same. absurd (omega (arith, same, index))) (omega (arith, fits))
          (omega (arith, fits, inside, index)) in
      let d : suc i + 1 ≡ suc (i + 1) = omega arith in
      rw (differ, d)
        (events_after-numbered i (n + 1) k bs (omega (arith, index)) (omega (arith, inside))
          (omega (arith, fits)))

  new-Holds : (max : ℤ) → Holds event_id (positive_or max 200) [] (new_server_session max)
  unfolding new_server_session
  new-Holds max = record {
    cap = refl;
    count = refl;
    held = let e : 0 - positive_or max 200 ≡ 0 = omega arith in rw e refl;
  }

  -- The events that are kept, when they are numbered from behind `j`.
  replay_kept :
      (k j : ℕ) (bs : List String) (s : ServerSession)
      → length bs < two_to_64
      → j ≤ length bs
      → k ≤ length bs
      → s.events ≡ numbered event_id j (drop j bs)
      → replay_after (event_id k) s ≡ (if ltb j k then numbered event_id k (drop k bs) else [])
  unfolding replay_after
  replay_kept k j bs s fits short last kept = elim (Bool-cases (ltb j k)) [
    | inr evicted ↦
        rw (format.not_empty k, evicted, kept)
          (events_after_other k j (drop j bs) (ground arith)
            (omega (arith, length-drop j bs, fits, short)))
    | inl there ↦
        let i : ℕ = k - j - 1 in
        let after : j < k = ltb→lt j k there in
        let index : j + i + 1 ≡ k = omega (arith, after) in
        let rest : j + (i + 1) ≡ k = omega (arith, after) in
        rw (format.not_empty k, there, kept)
          (events_after-numbered i j k (drop j bs) (sym index)
              (omega (arith, length-drop j bs, after, last))
              (omega (arith, length-drop j bs, fits, short))
            ∙ ap (numbered event_id k) (drop-drop (i + 1) j bs ∙ ap (λ n. drop n bs) rest))
  ]

  -- On a new session, after fewer than 2^64 texts have been buffered one by one: the session keeps at most
  -- its maximum of events (200 where none is given); a client that names the k-th event is sent exactly
  -- the events behind it, in order, if that event is still kept, and nothing if it has been evicted.
  pub replay_resumes :
      (max : ℤ) (bs : List String) (k : ℕ)
      → length bs < two_to_64
      → k ≤ length bs
      → let s = buffer_all event_id bs (new_server_session max) in
        (length s.events ≤ positive_or max 200)
        × (replay_after (event_id k) s ≡ (
            if ltb (length bs - positive_or max 200) k
            then numbered event_id k (drop k bs)
            else []))
  replay_resumes max bs k fits last =
      let m : ℕ = positive_or max 200 in
      let j : ℕ = length bs - m in
      let s : ServerSession = buffer_all event_id bs (new_server_session max) in
      let v : Holds event_id m bs s =
        buffer_all-Holds event_id m bs [] (new_server_session max) (omega (arith, fits))
          (new-Holds max) in
      let from_zero : 0 + j ≡ j = omega arith in
      let kept : s.events ≡ numbered event_id j (drop j bs) =
        v.held
        ∙ rw (length-numbered event_id 0 bs)
            (drop-numbered event_id j 0 bs ∙ ap (λ n. numbered event_id n (drop j bs)) from_zero) in
      (
        rw (kept, length-numbered event_id j (drop j bs)) (omega (arith, length-drop j bs)),
        replay_kept k j bs s fits (omega arith) last kept,
      )
