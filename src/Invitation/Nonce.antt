-- ===== src/Invitation/Nonce.antt =====
-- An invitation nonce is good once: the store and the check of wmp.session.create.
use go_wmp.Prelude.{◌≡◌, ◌≢◌, ◌↔◌, String, true, false, Bool, Option, none, some, arith, eq_iff}
use go_wmp.Prelude.Maps.{Map, lookup, lookup-insert_self, lookup-erase_self, lookup-erase_ne}
use go_wmp.Types.Json.{Time}
use go_wmp.Invitation.{
  Invitation, is_expired, put, consume, memory_invitation_store, refuse, verify, accept_invitation,
  validate_invitation_nonce,
}

-- `Consume` gives the stored invitation exactly when it is there and has not expired; the nonce is
-- gone afterwards, whatever came out, and the other nonces are as before.
pub consume_once :
    (now : Time) (nonce : String) (m : Map Invitation)
    → ((inv : Invitation)
        → ((consume now nonce m).0 ≡ some inv)
          ↔ ((lookup nonce m ≡ some inv) × (is_expired now inv ≡ false)))
      × (lookup nonce (consume now nonce m).1 ≡ none)
      × ((j : String) → nonce ≢ j → lookup j (consume now nonce m).1 ≡ lookup j m)
unfolding consume
consume_once now nonce m = (
  λ inv. ground arith,
  ground (arith, lookup-erase_self nonce m),
  λ j h. ground (arith, lookup-erase_ne nonce j m h),
)

-- A nonce that `Put` has accepted was new; `Consume` before the expiry gives back the invitation put,
-- and a second `Put` of the same nonce is refused and changes nothing.
pub consume-put :
    (now : Time) (nonce : String) (inv other : Invitation) (m : Map Invitation)
    → (put nonce inv m).1 ≡ true
    → (lookup nonce m ≡ none)
      × (is_expired now inv ≡ false → (consume now nonce (put nonce inv m).0).0 ≡ some inv)
      × (put nonce other (put nonce inv m).0 ≡ ((put nonce inv m).0, false))
unfolding put consume
consume-put now nonce inv other m h = (
  ground arith,
  λ fresh. ground (arith, lookup-insert_self nonce inv m),
  ground (arith, lookup-insert_self nonce inv m),
)

module _ (verifier : Option (Invitation → Bool)) where
  -- Over the in-memory store the check accepts an invitation exactly when the nonce is not empty, the
  -- store holds that invitation under it, the invitation has expired at neither reading of the clock,
  -- and the verifier, if there is one, passes it.
  pub validate_accepts_iff :
      (consumed checked : Time) (nonce : String) (m : Map Invitation) (inv : Invitation)
      → ((validate_invitation_nonce memory_invitation_store verifier consumed checked nonce
            m).0.invitation
          ≡ some inv)
        ↔ ((nonce ≢ "")
            × (lookup nonce m ≡ some inv)
            × (is_expired consumed inv ≡ false)
            × (is_expired checked inv ≡ false)
            × (verify memory_invitation_store verifier inv ≡ true))
  unfolding validate_invitation_nonce accept_invitation consume
  validate_accepts_iff consumed checked nonce m inv = ground (arith, eq_iff nonce "")

  -- Whatever the first check answered, a second one with the same nonce answers
  -- "invalid_invitation_nonce": also after an invitation that expired or failed verification.
  pub validate_twice :
      (c1 k1 c2 k2 : Time) (nonce : String) (m : Map Invitation)
      → nonce ≢ ""
      → let after = (validate_invitation_nonce memory_invitation_store verifier c1 k1 nonce m).1 in
        validate_invitation_nonce memory_invitation_store verifier c2 k2 nonce after
        ≡ (refuse "invalid_invitation_nonce", after)
  unfolding validate_invitation_nonce consume
  validate_twice c1 k1 c2 k2 nonce m h = ground (arith, eq_iff nonce "", lookup-erase_self nonce m)
