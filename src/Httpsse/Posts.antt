-- ===== src/Httpsse/Posts.antt =====
-- pkg/wmp/httpsse/httpsse.go, `handlePost`: where the posted messages go.
use mathlib.Core.List.{append-nil, append_assoc}
use go_wmp.Prelude.{
  ◌≡◌, ◌≢◌, refl, ◌∙◌, sym, ap, ℕ, ◌+◌, ◌≤◌, ◌<◌, String, true, false, Option, none, some, List, [],
  ◌∷◌, ◌++◌, arith, ltb, length, length-append, lt→ltb, ◌==◌, ==_iff,
}
use go_wmp.Prelude.Maps.{lookup, lookup-insert_self}
use go_wmp.Httpsse.{
  set, ServerSession, ServerHandler, new_server_session, add_session, push_incoming, post_after,
  post,
}

-- What waits for the peer in the session under an id.
abbrev pub inbox_at : Option ℕ → (ℕ → ServerSession) → List String
inbox_at none store = []
inbox_at (some n) store = (store n).incoming

abbrev pub inbox : String → ServerHandler → List String
inbox session_id h = inbox_at (lookup session_id h.sessions) h.store

-- Posts one after the other, up to one that waits.
abbrev pub post_all : String → List String → ServerHandler → Option ServerHandler
post_all session_id [] h = some h
post_all session_id (b ∷ bs) h = elim (post session_id b h).1 [
  | none ↦ none
  | some h' ↦ post_all session_id bs h'
]

-- A push that had room: one session's inbox grows, and nothing else changes.
record Pushed (body : String) (n : ℕ) (h h' : ServerHandler) : Type 0 where
  done : push_incoming body n h ≡ some h'
  sessions : h'.sessions ≡ h.sessions
  next : h'.next ≡ h.next
  got : (h'.store n).incoming ≡ (h.store n).incoming ++ body ∷ []
  others : (m : ℕ) → (m == n) ≡ false → h'.store m ≡ h.store m

push_room :
    (body : String) (n : ℕ) (h : ServerHandler)
    → length (h.store n).incoming < 64
    → (h' : ServerHandler) × Pushed body n h h'
unfolding push_incoming
push_room body n h room =
    let test : ltb (length (h.store n).incoming) 64 ≡ true = lt→ltb _ _ room in
    let self : (n == n) ≡ true = (==_iff n n).1 refl in
    let after : ServerHandler = record h {
      store = set n (record (h.store n) { incoming = (h.store n).incoming ++ body ∷ [] }) h.store;
    } in
    (
      after,
      record {
        done = rw (test, push_incoming) refl;
        sessions = refl;
        next = refl;
        got = rw self refl;
        others = λ m other. rw other refl;
      },
    )

-- A push to the session that was just added.
push_added :
    (session_id body : String) (h : ServerHandler)
    → let added = (add_session session_id h).1 in
      (h' : ServerHandler) × Pushed body h.next added h'
      × (lookup session_id h'.sessions ≡ some h.next)
      × ((h'.store h.next).incoming ≡ body ∷ [])
unfolding add_session new_server_session
push_added session_id body h =
    let added : ServerHandler = (add_session session_id h).1 in
    let self : (h.next == h.next) ≡ true = (==_iff h.next h.next).1 refl in
    let empty : (added.store h.next).incoming ≡ [] = rw self refl in
    let (h', p) = push_room body h.next added (rw empty (omega arith)) in
    (h', p, rw p.sessions (lookup-insert_self session_id h.next h.sessions), rw empty at p.got)

post_room :
    (session_id body : String) (h : ServerHandler)
    → length (inbox session_id h) < 64
    → (h' : ServerHandler) × ((post session_id body h).1 ≡ some h')
      × (inbox session_id h' ≡ inbox session_id h ++ body ∷ [])
unfolding post post_after add_session
post_room session_id body h room = go (lookup session_id h.sessions) refl
  where
    go :
        (o : Option ℕ)
        → lookup session_id h.sessions ≡ o
        → (h' : ServerHandler) × ((post_after o session_id body h).1 ≡ some h')
          × (inbox session_id h' ≡ inbox_at o h.store ++ body ∷ [])
    go (some n) e =
        let (h', p) = push_room body n h (rw e at room) in (h', p.done, rw (p.sessions, e) p.got)
    go none e =
        let (h', p, leads, alone) = push_added session_id body h in (h', p.done, rw leads alone)

post_all_step :
    (session_id b : String) (bs : List String) (h h1 : ServerHandler)
    → (post session_id b h).1 ≡ some h1
    → post_all session_id (b ∷ bs) h ≡ post_all session_id bs h1
post_all_step session_id b bs h h1 first = rw (post_all, first) refl

-- Messages that are posted one after the other wait in the session under their id in the order of the
-- posts, behind what waited there, whether the session was there or not, as long as there is room
-- for 64 of them.
pub posts_in_turn :
    (session_id : String) (bs : List String) (h : ServerHandler)
    → length (inbox session_id h) + length bs ≤ 64
    → (h' : ServerHandler) × (post_all session_id bs h ≡ some h')
      × (inbox session_id h' ≡ inbox session_id h ++ bs)
posts_in_turn session_id [] h room = (h, refl, sym (append-nil (inbox session_id h)))
posts_in_turn session_id (b ∷ bs) h room =
    let (h1, first, got) = post_room session_id b h (omega (arith, room)) in
    let count : length (inbox session_id h1) ≡ length (inbox session_id h) + 1 =
      rw got (omega (arith, length-append (inbox session_id h) (b ∷ []))) in
    let (h2, others, all) = posts_in_turn session_id bs h1 (omega (arith, count, room)) in
    (
      h2,
      post_all_step session_id b bs h h1 first ∙ others,
      all ∙ rw got (append_assoc (inbox session_id h) (b ∷ []) bs),
    )

race :
    (session_id a b : String) (h : ServerHandler)
    → (h1 : ServerHandler) × (h2 : ServerHandler) × ((post_after none session_id a h).1 ≡ some h1)
      × ((post_after none session_id b h1).1 ≡ some h2)
      × (inbox session_id h2 ≡ b ∷ [])
      × ((h2.store h.next).incoming ≡ a ∷ [])
      × (lookup session_id h2.sessions ≡ some (h.next + 1))
unfolding post_after add_session
race session_id a b h =
    let (h1, p, leads, alone) = push_added session_id a h in
    let (h2, q, leads', alone') = push_added session_id b h1 in
    let fresh : h1.next ≡ h.next + 1 = p.next in
    let other : (h.next == h1.next) ≡ false = ground arith in
    (
      h1,
      h2,
      p.done,
      q.done,
      rw leads' alone',
      ap (λ s. s.incoming) (q.others h.next other) ∙ rw other alone,
      leads' ∙ ap some fresh,
    )

not_first : (n : ℕ) → some (n + 1) ≡ some n → ⊥
not_first n e = let same : n + 1 ≡ n = ground arith in absurd (omega (arith, same))

-- When two posts under an id without a session both look it up before either adds a session, both add one
-- and both messages are pushed, but only the second waits under the id: the first is in a session
-- to which the id does not lead.
pub post_race_loses_first :
    (session_id a b : String) (h : ServerHandler)
    → lookup session_id h.sessions ≡ none
    → let seen = lookup session_id h.sessions in
      (h1 : ServerHandler) × (h2 : ServerHandler) × ((post_after seen session_id a h).1 ≡ some h1)
      × ((post_after seen session_id b h1).1 ≡ some h2)
      × (inbox session_id h2 ≡ b ∷ [])
      × ((h2.store (post_after seen session_id a h).0).incoming ≡ a ∷ [])
      × (lookup session_id h2.sessions ≢ some (post_after seen session_id a h).0)
unfolding post_after add_session
post_race_loses_first session_id a b h free =
    let (h1, h2, first, second, last, stuck, leads) = race session_id a b h in
    rw free (h1, h2, first, second, last, stuck, λ same. not_first h.next (sym leads ∙ same))
