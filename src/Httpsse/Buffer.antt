-- ===== src/Httpsse/Buffer.antt =====
-- pkg/wmp/httpsse/httpsse.go, `bufferEvent`: what the buffer holds.
use go_wmp.Prelude.{
  ◌≡◌, refl, ◌∙◌, sym, ap, subst, ℕ, zero, suc, ◌+◌, ◌-◌, ◌%◌, ◌≤◌, ◌<◌, String, false, List, [],
  ◌∷◌, ◌++◌, arith, if◌then◌else◌, str_eq, ltb, length, length-append, length-drop, drop,
  Bool-cases, inl, inr,
}
use go_wmp.Httpsse.{ServerEvent, ServerSession, two_to_64, buffer_event}
use mathlib.Core.List.{append-nil, append_assoc}

-- What `fmt.Sprintf("evt-%d", n)` does at the 64 bits of an int64: other numbers are printed otherwise,
-- and nothing is printed as the empty text.
pub record IsFormat (event_id : ℕ → String) : Type 0 where
  pub injective : (a b : ℕ) → a < two_to_64 → b < two_to_64 → event_id a ≡ event_id b → a ≡ b
  pub not_empty : (a : ℕ) → str_eq (event_id a) "" ≡ false

-- The events of these texts, numbered from behind `n`.
abbrev pub numbered : (ℕ → String) → ℕ → List String → List ServerEvent
numbered event_id n [] = []
numbered event_id n (b ∷ bs) =
    record { id = event_id (n + 1); bytes = b } ∷ numbered event_id (n + 1) bs

abbrev pub buffer_all : (ℕ → String) → List String → ServerSession → ServerSession
buffer_all event_id [] s = s
buffer_all event_id (b ∷ bs) s = buffer_all event_id bs (buffer_event event_id b s).1

module _ (event_id : ℕ → String) where
  pub length-numbered : (n : ℕ) (bs : List String) → length (numbered event_id n bs) ≡ length bs
  length-numbered n [] = refl
  length-numbered n (b ∷ bs) = omega (arith, length-numbered (n + 1) bs)

  numbered-append :
      (n : ℕ) (bs : List String) (b : String)
      → numbered event_id n (bs ++ b ∷ [])
        ≡ numbered event_id n bs ++ record { id = event_id (n + length bs + 1); bytes = b } ∷ []
  numbered-append n [] b = let e : n + 0 + 1 ≡ n + 1 = omega arith in rw e refl
  numbered-append n (a ∷ bs) b =
      let e : n + suc (length bs) + 1 ≡ n + 1 + length bs + 1 = omega arith in
      rw (e, numbered-append (n + 1) bs b) refl

  pub drop-numbered :
      (j n : ℕ) (bs : List String)
      → drop j (numbered event_id n bs) ≡ numbered event_id (n + j) (drop j bs)
  drop-numbered zero n bs = let e : n + 0 ≡ n = omega arith in rw e refl
  drop-numbered (suc j) n [] = refl
  drop-numbered (suc j) n (b ∷ bs) =
      let e : n + suc j ≡ n + 1 + j = omega arith in rw e (drop-numbered j (n + 1) bs)

drop-append :
    {A : Type 0} (j : ℕ) (xs ys : List A) → j ≤ length xs → drop j (xs ++ ys) ≡ drop j xs ++ ys
drop-append zero xs ys h = refl
drop-append (suc j) [] ys h = absurd (omega (arith, h))
drop-append (suc j) (x ∷ xs) ys h = drop-append j xs ys (omega (arith, h))

drop_nil : {A : Type 0} (i : ℕ) → drop {A = A} i [] ≡ []
drop_nil zero = refl
drop_nil (suc i) = refl

pub drop-drop : {A : Type 0} (i j : ℕ) (xs : List A) → drop i (drop j xs) ≡ drop (j + i) xs
drop-drop i zero xs = let e : 0 + i ≡ i = omega arith in rw e refl
drop-drop i (suc j) [] = drop_nil i ∙ sym (drop_nil (suc j + i))
drop-drop i (suc j) (x ∷ xs) =
    let e : suc j + i ≡ suc (j + i) = omega arith in rw e (drop-drop i j xs)

-- The last `m` of a list, or all of it.
abbrev pub keep_last : {A : Type 0} → ℕ → List A → List A
keep_last m xs = drop (length xs - m) xs

keep_last_again :
    {A : Type 0} (m : ℕ) (xs : List A) (y : A)
    → keep_last m (keep_last m xs ++ y ∷ []) ≡ keep_last m (xs ++ y ∷ [])
keep_last_again {A} m xs y =
    let short : length xs - m ≤ length xs = omega arith in
    let kept : drop (length xs - m) xs ++ y ∷ [] ≡ drop (length xs - m) (xs ++ y ∷ []) =
      sym (drop-append (length xs - m) xs (y ∷ []) short) in
    let count : length (xs ++ y ∷ []) ≡ length xs + 1 = omega (arith, length-append xs (y ∷ [])) in
    let all : List A = xs ++ y ∷ [] in
    let sum : length xs - m + (length (drop (length xs - m) all) - m) ≡ length all - m =
      omega (arith, length-drop (length xs - m) all, count) in
    rw (kept, drop-drop (length (drop (length xs - m) all) - m) (length xs - m) all, sum) refl

-- After the texts `bs`, one by one: the events are the last `m` of the numbered texts.
pub record Holds (event_id : ℕ → String) (m : ℕ) (bs : List String) (s : ServerSession)
    : Type 0 where
  pub cap : s.max_events ≡ m
  pub count : s.next_id ≡ length bs
  pub held : s.events ≡ keep_last m (numbered event_id 0 bs)

capped :
    {A : Type 0} (m : ℕ) (xs : List A)
    → (if ltb m (length xs) then drop (length xs - m) xs else xs) ≡ keep_last m xs
capped m xs = elim (Bool-cases (ltb m (length xs))) [
  | inl over ↦ rw over refl
  | inr fits ↦ rw fits (let none_left : length xs - m ≡ 0 = ground arith in rw none_left refl)
]

module _ (event_id : ℕ → String) (m : ℕ) where
  buffer_event-Holds :
      (bs : List String) (b : String) (s : ServerSession)
      → length bs + 1 < two_to_64
      → Holds event_id m bs s
      → Holds event_id m (bs ++ b ∷ []) (buffer_event event_id b s).1
  unfolding buffer_event
  buffer_event-Holds bs b s fits v =
      let next : (s.next_id + 1) % two_to_64 ≡ 0 + length bs + 1 = omega (arith, v.count, fits) in
      record {
        cap = v.cap;
        count = next ∙ omega (arith, length-append bs (b ∷ []));
        held =
            capped s.max_events _
            ∙ rw (v.cap, v.held, next)
                (keep_last_again m (numbered event_id 0 bs) _
                  ∙ ap (keep_last m) (sym (numbered-append event_id 0 bs b)));
      }

  pub buffer_all-Holds :
      (more bs : List String) (s : ServerSession)
      → length bs + length more < two_to_64
      → Holds event_id m bs s
      → Holds event_id m (bs ++ more) (buffer_all event_id more s)
  buffer_all-Holds [] bs s fits v = rw (append-nil bs) v
  buffer_all-Holds (b ∷ more) bs s fits v =
      subst (λ l. Holds event_id m l (buffer_all event_id more (buffer_event event_id b s).1))
        (append_assoc bs (b ∷ []) more)
        (buffer_all-Holds more (bs ++ b ∷ []) (buffer_event event_id b s).1
          (omega (arith, length-append bs (b ∷ []), fits))
          (buffer_event-Holds bs b s (omega (arith, fits)) v))
