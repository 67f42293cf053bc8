-- ===== src/Invitation.antt =====
-- pkg/wmp/invitation.go: invitations, the nonce store and the nonce check of wmp.session.create.
-- The store's methods hold its lock, so each is one step; the time is an argument.
pub mod Nonce
pub mod Uri
pub mod UriRoundTrip
mod Examples
use go_wmp.Prelude.{
  ℕ, String, Bool, true, false, not, ◌&&◌, Option, none, some, str_eq, ltb, ◌==◌, if◌then◌else◌,
}
use go_wmp.Prelude.Int.{ℤ, pos}
use go_wmp.Prelude.Maps.{Map, lookup, insert, erase}
use go_wmp.Errors.{err_not_authorized}
use go_wmp.Types.Json.{Time, Capabilities}
use go_wmp.Sweep.{sweep}

pub record Invitation : Type 0 where
  pub provider : String
  pub sender : String
  pub nonce : String
  pub relay : String
  pub purpose : String
  pub session_id : String
  pub label : String
  pub capabilities : Capabilities
  pub expires_at : Time
  pub signature : String

unfoldable pub is_expired : Time → Invitation → Bool
is_expired now inv = not (inv.expires_at == 0) && ltb inv.expires_at now

-- The interface `InvitationStore`, as far as the nonce check calls it, over the store's state.
pub record InvitationStore (S : Type 0) : Type 0 where
  pub consume : Time → String → S → Option Invitation × S

-- The error text of `Put` is left out: `false` is the error.
unfoldable pub put : String → Invitation → Map Invitation → Map Invitation × Bool
put nonce inv m = elim (lookup nonce m) [
  | some old ↦ (m, false)
  | none ↦ (insert nonce inv m, true)
]

unfoldable pub consume : Time → String → Map Invitation → Option Invitation × Map Invitation
consume now nonce m = elim (lookup nonce m) [
  | none ↦ (none, m)
  | some inv ↦ if is_expired now inv then (none, erase nonce m) else (some inv, erase nonce m)
]

unfoldable pub cleanup : (ℕ → Time) → Map Invitation → Map Invitation × ℕ
cleanup clock m = sweep is_expired clock 0 m

abbrev pub memory_invitation_store : InvitationStore (Map Invitation)
memory_invitation_store = record { consume = consume }

-- The result of `ValidateInvitationNonce`: the invitation, the code and the message.
pub record Verdict : Type 0 where
  pub invitation : Option Invitation
  pub code : ℤ
  pub message : String

abbrev pub refuse : String → Verdict
refuse why = record { invitation = none; code = err_not_authorized; message = why }

-- The verifier is nil or a check that passes (`true`) or returns an error. `consumed` and `checked`
-- are the two readings of the clock.
module _ {S : Type 0} (store : InvitationStore S) (verifier : Option (Invitation → Bool)) where
  abbrev pub verify : Invitation → Bool
  verify inv = elim verifier [ none ↦ true | some check ↦ check inv ]

  unfoldable pub accept_invitation : Time → Invitation → Verdict
  accept_invitation checked inv =
      if is_expired checked inv
      then refuse "invitation expired"
      else if verify inv
      then record { invitation = some inv; code = pos 0; message = "" }
      else refuse "invitation signature verification failed"

  unfoldable pub validate_invitation_nonce : Time → Time → String → S → Verdict × S
  unfolding accept_invitation
  validate_invitation_nonce consumed checked nonce s =
      if str_eq nonce ""
      then (refuse "missing invitation_nonce", s)
      else let r = store.consume consumed nonce s in
        elim r.0 [
          | none ↦ (refuse "invalid_invitation_nonce", r.1)
          | some inv ↦ (accept_invitation checked inv, r.1)
        ]
