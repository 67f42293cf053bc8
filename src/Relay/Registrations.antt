-- ===== src/Relay/Registrations.antt =====
-- Registrations: how long they last, and who can tell that they were purged.
use go_wmp.Prelude.{
  str_eq, ◌+◌, ◌≤◌, ◌≡◌, ◌≢◌, ◌<◌, ◌↔◌, refl, String, true, false, not, Option, some, arith, eq_iff,
  Bool-cases, inl, inr, ltb,
}
use go_wmp.Prelude.Maps.{
  lookup-retain, lookup-insert_self, lookup-insert_ne, lookup-erase_self, lookup-erase_ne,
}
use go_wmp.Types.Json.{Time}
use go_wmp.Types.Message.{RelayRegisterParams}
use go_wmp.Relay.{
  Relay, method_relay_register, handle_method, register, is_registered, unregister, purge_expired,
}
use go_wmp.Relay.Queues.{IsValid}

register_lasts :
    (now t : Time) (p : String) (r : Relay)
    → ((is_registered t p (register now p r) ≡ true) ↔ (t < now + r.config.registration_ttl))
      × ((j : String) → p ≢ j → is_registered t j (register now p r) ≡ is_registered t j r)
      × ((register now p r).queues ≡ r.queues)
unfolding register is_registered
register_lasts now t p r = (
  rw (lookup-insert_self p _ r.registrations, is_registered) (ground arith),
  λ j h. rw (lookup-insert_ne p j _ r.registrations h, is_registered),
  refl,
)

-- A registration that succeeds names a sender and makes it registered until the registration's time
-- to live has passed, and no longer; the other participants and the queues are as before.
pub handle_method_registers :
    (decode : String → Option RelayRegisterParams) (now t : Time) (params : String)
    (p : RelayRegisterParams) (r : Relay)
    → decode params ≡ some p
    → p.wmp.sender ≢ ""
    → let after = (handle_method decode now method_relay_register (some params) r).1 in
      ((is_registered t p.wmp.sender after ≡ true) ↔ (t < now + r.config.registration_ttl))
      × ((j : String) → p.wmp.sender ≢ j → is_registered t j after ≡ is_registered t j r)
      × (after.queues ≡ r.queues)
unfolding handle_method
handle_method_registers decode now t params p r good named =
    rw (good, handle_method)
      (elim (Bool-cases (str_eq p.wmp.sender "")) [
        | inl empty ↦ absurd (named ((eq_iff _ _).0 empty))
        | inr there ↦ rw (there, handle_method) (register_lasts now t p.wmp.sender r)
      ])

-- `PurgeExpired` at one instant changes no answer of `IsRegistered` from that instant on.
pub is_registered-purge :
    (now t : Time) (j : String) (r : Relay)
    → IsValid r
    → now ≤ t
    → is_registered t j (purge_expired now r) ≡ is_registered t j r
unfolding is_registered purge_expired
is_registered-purge now t j r v h =
    ground (
      arith,
      lookup-retain (λ reg. not (ltb reg.expires_at now)) j r.registrations v.registered_once,
    )

-- A participant that has unregistered is not registered, at any time; the others are as before.
pub is_registered-unregister :
    (t : Time) (p j : String) (r : Relay)
    → (is_registered t p (unregister p r) ≡ false)
      × (p ≢ j → is_registered t j (unregister p r) ≡ is_registered t j r)
unfolding is_registered unregister
is_registered-unregister t p j r = (
  rw (lookup-erase_self p r.registrations, is_registered),
  λ h. rw (lookup-erase_ne p j r.registrations h, is_registered),
)
