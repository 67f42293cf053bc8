-- ===== src/Session/Examples.antt =====
-- Tests of the session store.
use go_wmp.Session.Store.{cleanup_removes_expired}
use go_wmp.Session.{cleanup, get, Session}
use go_wmp.Prelude.{◌≡◌, refl, ◌≤◌, ℕ, none, some, [], ◌∷◌, arith}
use go_wmp.Fixtures.{session_at}
use go_wmp.Prelude.Maps.{Map, HasDistinctKeys}

abbrev two_sessions : Map Session
two_sessions = ("s1", session_at "s1" 5) ∷ ("s2", session_at "s2" 90) ∷ []

distinct : HasDistinctKeys two_sessions
unfolding go_wmp.Prelude.Maps.lookup
distinct = (refl, (refl, tt))

clock_within : (i : ℕ) → (10 ≤ 10) × (10 ≤ 20)
clock_within i = (omega arith, omega arith)

clock_past : (i : ℕ) → 10 ≤ 20
clock_past i = omega arith

cleanup_removes_expired_example : get "s1" (cleanup (λ _. 10) two_sessions).0 ≡ none
unfolding get go_wmp.Prelude.Maps.lookup go_wmp.Session.is_expired
cleanup_removes_expired_example =
    (cleanup_removes_expired 10 20 (λ _. 10) two_sessions "s1" clock_within distinct).0
      (session_at "s1" 5) refl refl
