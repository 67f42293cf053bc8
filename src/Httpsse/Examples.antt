-- ===== src/Httpsse/Examples.antt =====
-- Tests of the event stream and of the posts.
use Prim.Native.String
use Prim.Native.String.{◌++◌ as append, len, slice, []}
use text.Mathlib.TextPositions.{len-append}
use go_wmp.Prelude.{
  ◌≡◌, ◌≢◌, refl, ◌∙◌, sym, ap, ℕ, zero, suc, ◌+◌, ◌-◌, String, some, List, [], ◌∷◌, arith, str_eq,
  eq_iff, Bool-cases, inl, inr,
}
use go_wmp.Prelude.Int.{pos}
use go_wmp.Prelude.Maps.{lookup}
use go_wmp.Httpsse.{
  event_lines, ServerHandler, Client, new_server_handler, new_server_session, replay_after,
  read_sse, post_after,
}
use go_wmp.Httpsse.Buffer.{IsFormat, numbered, buffer_all}
use go_wmp.Httpsse.Replay.{replay_resumes}
use go_wmp.Httpsse.Posts.{inbox, post_all, posts_in_turn, post_race_loses_first}

-- A number in strokes.
abbrev strokes : ℕ → String
strokes zero = "|"
strokes (suc n) = append "|" (strokes n)

len-strokes : (n : ℕ) → len (strokes n) ≡ n + 1
len-strokes zero = refl
len-strokes (suc n) = len-append "|" (strokes n) ∙ omega (arith, len-strokes n)

strokes-IsFormat : IsFormat strokes
strokes-IsFormat = record {
  injective = λ a b below below' same.
      let lens : a + 1 ≡ b + 1 = sym (len-strokes a) ∙ ap len same ∙ len-strokes b in
      omega (arith, lens);
  not_empty = λ a. elim (Bool-cases (str_eq (strokes a) "")) [
    | inr named ↦ named
    | inl empty ↦
        let none_left : a + 1 ≡ 0 =
          sym (len-strokes a) ∙ ap len ((eq_iff (strokes a) "").0 empty) in
        absurd (omega (arith, none_left))
  ];
}

-- Takes the last byte off.
abbrev chop : String → String
chop s = slice s 0 (len s - 1)

abbrev sent : List String
sent = "a" ∷ "b" ∷ "c" ∷ []

-- A test: of a text with a line break the reader keeps what stands before it.
break_cuts_text :
    (read_sse chop
      (event_lines (record { id = "|"; bytes = "a\nb" }))
      (record { current_id = ""; last_event_id = ""; incoming = [] })).incoming
    ≡ "a" ∷ []
unfolding read_sse event_lines
break_cuts_text = refl

replay_resumes_example :
    replay_after (strokes 2) (buffer_all strokes sent (new_server_session (pos 2)))
    ≡ numbered strokes 2 ("c" ∷ [])
replay_resumes_example =
    (replay_resumes strokes strokes-IsFormat (pos 2) sent 2 (omega arith) (omega arith)).1

abbrev client : Client
client = record { current_id = ""; last_event_id = strokes 2; incoming = "a" ∷ "b" ∷ [] }

abbrev server : ServerHandler
server = record {
  sessions = ("s", 0) ∷ [];
  store = λ n. buffer_all strokes sent (new_server_session (pos 2));
  next = 1;
}

posts_in_turn_example :
    (h : ServerHandler) × (post_all "s" sent new_server_handler ≡ some h) × (inbox "s" h ≡ sent)
unfolding new_server_handler lookup
posts_in_turn_example = posts_in_turn "s" sent new_server_handler (omega arith)

post_race_loses_first_example :
    let seen = lookup "s" new_server_handler.sessions in
    (h1 : ServerHandler) × (h2 : ServerHandler) × ((post_after seen "s" "a" new_server_handler).1
      ≡ some h1)
    × ((post_after seen "s" "b" h1).1 ≡ some h2)
    × (inbox "s" h2 ≡ "b" ∷ [])
    × ((h2.store (post_after seen "s" "a" new_server_handler).0).incoming ≡ "a" ∷ [])
    × (lookup "s" h2.sessions ≢ some (post_after seen "s" "a" new_server_handler).0)
unfolding new_server_handler lookup
post_race_loses_first_example = post_race_loses_first "s" "a" "b" new_server_handler refl
