-- ===== src/Mls/Members.antt =====
-- pkg/wmp/mls/noop.go, `GroupCreate`: when a group is made, and who its members are.
use text.Mathlib.TextPositions.{eq_refl}
use go_wmp.Prelude.{
  ◌≡◌, ◌≢◌, refl, String, Bool, true, false, not, ◌||◌, ◌&&◌, none, some, [], ◌∷◌, arith,
  if◌then◌else◌, str_eq, Bool-cases, inl, inr, is_some, eq_iff,
}
use go_wmp.Prelude.Maps.{Map, lookup, insert, lookup-insert, lookup-insert_ne}
use go_wmp.Types.Mls.{GroupCreateParams}
use go_wmp.Jsonrpc.{Codec}
use go_wmp.Mls.Noop.{Groups, NoopGroup, group_create, invite_all, add_named}

invite_all-lookup :
    (p : String) (welcomes : Map String) (members : Map Bool)
    → lookup p (invite_all welcomes members)
      ≡ (if is_some (lookup p welcomes) then some true else lookup p members)
unfolding invite_all lookup
invite_all-lookup p [] members = refl
invite_all-lookup p ((q, w) ∷ welcomes) members =
    ground
      (arith, invite_all-lookup p welcomes (insert q true members), lookup-insert q p true members)

-- Has the participant a welcome, or made the group?
abbrev pub belongs : GroupCreateParams → String → Bool
belongs ps p =
    is_some (lookup p ps.welcomes) || (str_eq ps.wmp.sender p && not (str_eq ps.wmp.sender ""))

created_members :
    (ps : GroupCreateParams) (p : String)
    → lookup p (add_named ps.wmp.sender (invite_all ps.welcomes []))
      ≡ (if belongs ps p then some true else none)
unfolding lookup
created_members ps p = ground (
  arith,
  invite_all-lookup p ps.welcomes [],
  lookup-insert ps.wmp.sender p true (invite_all ps.welcomes []),
)

-- The group that a creation makes: new, at epoch 0, with the participants who belong to it.
record IsCreated (ps : GroupCreateParams) (old new : Groups) : Type 0 where
  pub group : NoopGroup
  pub found : lookup ps.group_id new ≡ some group
  pub named : group.group_id ≡ ps.group_id
  pub at_start : group.epoch ≡ 0
  pub members : (p : String) → lookup p group.members ≡ (if belongs ps p then some true else none)
  pub others : (id : String) → ps.group_id ≢ id → lookup id new ≡ lookup id old

module _ (c : Codec) where
  -- GroupCreate makes a group exactly when its id is not empty and no group has it: the group is then
  -- at epoch 0, its members are those with a welcome and the sender, if one is named, and the other
  -- groups stay. Otherwise there is no result and nothing changes.
  group_create_makes :
      (ps : GroupCreateParams) (groups : Groups)
      → let r = group_create c ps groups in
        (ps.group_id ≢ ""
          → lookup ps.group_id groups ≡ none
          → is_some r.0.0 ≡ true × IsCreated ps groups r.1)
        × (ps.group_id ≡ "" → (is_some r.0.0 ≡ false) × (r.1 ≡ groups))
        × ((g : NoopGroup)
            → lookup ps.group_id groups ≡ some g
            → (is_some r.0.0 ≡ false) × (r.1 ≡ groups))
  unfolding group_create
  group_create_makes ps groups = (
    λ named free.
        let test : str_eq ps.group_id "" ≡ false = ground (arith, eq_iff ps.group_id "") in
        rw (test, free, group_create)
          (
            refl,
            record {
              group = record {
                group_id = ps.group_id;
                epoch = 0;
                members = add_named ps.wmp.sender (invite_all ps.welcomes []);
              };
              found = rw (lookup-insert ps.group_id ps.group_id _ groups, eq_refl ps.group_id) refl;
              named = refl;
              at_start = refl;
              members = λ p. created_members ps p;
              others = λ id other. lookup-insert_ne ps.group_id id _ groups other;
            },
          ),
    λ empty. rw (empty, group_create) (refl, refl),
    λ g there. elim (Bool-cases (str_eq ps.group_id "")) [
      | inl empty ↦ rw (empty, group_create) (refl, refl)
      | inr named ↦ rw (named, there, group_create) (refl, refl)
    ],
  )
