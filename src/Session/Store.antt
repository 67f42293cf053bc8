-- ===== src/Session/Store.antt =====
-- The in-memory session store: what the methods promise one another, and what `Cleanup` removes.
use go_wmp.Prelude.{
  ℕ, ◌+◌, ◌≤◌, ◌≡◌, refl, String, true, false, none, some, arith, str_eq, if◌then◌else◌, length,
}
use go_wmp.Prelude.Maps.{Map, HasDistinctKeys, lookup-insert, lookup-erase}
use go_wmp.Types.Json.{Time}
use go_wmp.Sweep.{lookup-sweep, length-sweep, collect-sweep}
use go_wmp.Session.{
  Session, is_expired, create, get, update, delete, list, get_by_metadata, has_metadata, cleanup,
}

is_expired_mono : (s t : Time) (v : Session) → s ≤ t → is_expired s v ≡ true → is_expired t v ≡ true
unfolding is_expired
is_expired_mono s t v h e = ground arith

-- The store is a finite map from session ids: after `Create` or `Update` the id reads as the session
-- given and any other id as before, after `Delete` the id reads as missing and any other as before,
-- and no call reports an error.
pub store_is_map :
    (m : Map Session) (s : Session) (id j : String)
    → (get j (create s m).0 ≡ (if str_eq s.id j then some s else get j m))
      × (get j (update s m).0 ≡ (if str_eq s.id j then some s else get j m))
      × (get j (delete id m).0 ≡ (if str_eq id j then none else get j m))
      × ((create s m).1 ≡ none)
      × ((update s m).1 ≡ none)
      × ((delete id m).1 ≡ none)
unfolding create get update delete
store_is_map m s id j =
    (lookup-insert s.id j s m, lookup-insert s.id j s m, lookup-erase id j m, refl, refl, refl)

-- `Cleanup` whose clock readings lie between `early` and `late` removes every session that has
-- expired by `early`, keeps every session that has not expired by `late` as it is, adds none, and
-- returns the number of sessions removed.
pub cleanup_removes_expired :
    (early late : Time) (clock : ℕ → Time) (m : Map Session) (id : String)
    → ((i : ℕ) → (early ≤ clock i) × (clock i ≤ late))
    → HasDistinctKeys m
    → ((s : Session)
        → get id m ≡ some s
        → is_expired early s ≡ true
        → get id (cleanup clock m).0 ≡ none)
      × ((s : Session)
          → get id m ≡ some s
          → is_expired late s ≡ false
          → get id (cleanup clock m).0 ≡ some s)
      × (get id m ≡ none → get id (cleanup clock m).0 ≡ none)
      × (length (cleanup clock m).0 + (cleanup clock m).1 ≡ length m)
unfolding cleanup get
cleanup_removes_expired early late clock m id within d =
    let (gone, kept, absent) =
      lookup-sweep is_expired early late clock 0 m id is_expired_mono within d in
    (gone, kept, absent, length-sweep is_expired clock 0 m)

-- `List` and `GetByMetadata` at a later instant do not notice that `Cleanup` has run.
pub list-cleanup :
    (clock : ℕ → Time) (now : Time) (key value : String) (m : Map Session)
    → ((i : ℕ) → clock i ≤ now)
    → (list (λ _. now) (cleanup clock m).0 ≡ list (λ _. now) m)
      × (get_by_metadata key value (λ _. now) (cleanup clock m).0
          ≡ get_by_metadata key value (λ _. now) m)
unfolding list get_by_metadata cleanup
list-cleanup clock now key value m past = (
  collect-sweep is_expired (λ _. true) now clock 0 0 0 m is_expired_mono past,
  collect-sweep is_expired (has_metadata key value) now clock 0 0 0 m is_expired_mono past,
)
