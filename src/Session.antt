-- ===== src/Session.antt =====
-- pkg/wmp/session.go: sessions and the in-memory session store. Locking is left out: each method
-- holds the store's lock from start to end, so it is one step. `clock i` is the `time.Now()` of
-- round `i` of a loop.
pub mod Store
mod Examples
use go_wmp.Prelude.{
  ℕ, String, Bool, true, false, not, ◌&&◌, Option, none, some, List, [], ◌∷◌, str_eq, ltb, ◌==◌,
  is_some, if◌then◌else◌,
}
use go_wmp.Prelude.Maps.{Map, lookup, insert, erase}
use go_wmp.Types.Json.{Time, Capabilities}
use go_wmp.Types.Session.{SecurityMode}
use go_wmp.Sweep.{sweep, collect}

pub record Session : Type 0 where
  pub id : String
  pub participants : List String
  pub capabilities : Capabilities
  pub security : SecurityMode
  pub metadata : Option (Map String)
  pub resumption_token : String
  pub created_at : Time
  pub expires_at : Time

unfoldable pub is_expired : Time → Session → Bool
is_expired now s = not (s.expires_at == 0) && ltb s.expires_at now

unfoldable pub has_capability : Session → String → Bool
has_capability s name = is_some (lookup name s.capabilities)

-- The loop over `EncryptedCapabilities`.
unfoldable pub contains : String → List String → Bool
contains name [] = false
contains name (c ∷ cs) = let rest = contains name cs in if str_eq c name then true else rest

unfoldable pub requires_encryption : Session → String → Bool
requires_encryption s name = contains name s.security.encrypted_capabilities

-- The interface `SessionStore`, as far as a peer calls it, over the store's state. An error is a text.
pub record SessionStore (S : Type 0) : Type 0 where
  pub create : Session → S → S × Option String
  pub get : String → S → Option Session

unfoldable pub create : Session → Map Session → Map Session × Option String
create s m = (insert s.id s m, none)

unfoldable pub get : String → Map Session → Option Session
get id m = lookup id m

unfoldable pub update : Session → Map Session → Map Session × Option String
update s m = (insert s.id s m, none)

unfoldable pub delete : String → Map Session → Map Session × Option String
delete id m = (erase id m, none)

-- `sess.Metadata != nil && sess.Metadata[key] == value`: a missing key reads as "".
unfoldable pub has_metadata : String → String → Session → Bool
has_metadata key value s = elim s.metadata [
  | none ↦ false
  | some entries ↦ elim (lookup key entries) [ none ↦ str_eq "" value | some v ↦ str_eq v value ]
]

unfoldable pub get_by_metadata : String → String → (ℕ → Time) → Map Session → List Session
get_by_metadata key value clock m = collect is_expired (has_metadata key value) clock 0 m

unfoldable pub list : (ℕ → Time) → Map Session → List Session
list clock m = collect is_expired (λ _. true) clock 0 m

unfoldable pub cleanup : (ℕ → Time) → Map Session → Map Session × ℕ
cleanup clock m = sweep is_expired clock 0 m

abbrev pub memory_session_store : SessionStore (Map Session)
memory_session_store = record { create = create; get = get }
