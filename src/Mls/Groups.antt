-- ===== src/Mls/Groups.antt =====
-- pkg/wmp/mls/noop.go, `NoopMLSHandler`: its groups after any history of calls.
use go_wmp.Mls.Advances.{
  first_met-lookup, Advances-trans, create-Advances, replace-Advances, Advances-refl, total_epoch,
  Advances, Keeps, IsValid,
}
use go_wmp.Prelude.{
  subst, ◌≡◌, refl, ℕ, ◌+◌, String, Bool, false, List, [], ◌∷◌, arith, if◌then◌else◌, str_eq,
  Bool-cases, Option-cases, inl, inr, is_some,
}
use go_wmp.Prelude.Maps.{lookup}
use go_wmp.Types.Mls.{
  GroupCreateParams, GroupJoinParams, GroupAddParams, GroupRemoveParams, GroupUpdateParams,
  MessageFetchParams,
}
use go_wmp.Jsonrpc.{Codec}
use go_wmp.Mls.Noop.{
  Groups, first_met, group_create, group_join, group_add, group_remove, group_update, message_fetch,
}

-- A call of the handler; an added or removed participant comes with the group that the loop meets first.
pub data Call : Type 0 where
  creates : GroupCreateParams → Call
  joins : GroupJoinParams → Call
  adds : String → GroupAddParams → Call
  removes : String → GroupRemoveParams → Call
  updates : GroupUpdateParams → Call
  fetches : MessageFetchParams → Call

unfoldable pub call : Codec → Call → Groups → Groups
call c (creates ps) groups = (group_create c ps groups).1
call c (joins ps) groups = (group_join ps groups).1
call c (adds first ps) groups = (group_add c first ps groups).1
call c (removes first ps) groups = (group_remove c first ps groups).1
call c (updates ps) groups = group_update ps groups
call c (fetches ps) groups = (message_fetch ps groups).1

unfoldable pub call_all : Codec → List Call → Groups → Groups
unfolding call
call_all c [] groups = groups
call_all c (x ∷ xs) groups = call_all c xs (call c x groups)

-- The call adds or removes a participant, and is answered with a result.
unfoldable pub commits_now : Codec → Call → Groups → Bool
commits_now c (adds first ps) groups = is_some (group_add c first ps groups).0.0
commits_now c (removes first ps) groups = is_some (group_remove c first ps groups).0.0
commits_now c (creates ps) groups = false
commits_now c (joins ps) groups = false
commits_now c (updates ps) groups = false
commits_now c (fetches ps) groups = false

-- How many such calls a history has.
unfoldable pub commits : Codec → List Call → Groups → ℕ
unfolding commits_now
commits c [] groups = 0
commits c (x ∷ xs) groups =
    let rest = commits c xs (call c x groups) in if commits_now c x groups then rest + 1 else rest

module _ (c : Codec) where
  group_create-Advances :
      (ps : GroupCreateParams) (groups : Groups) → Advances groups (group_create c ps groups).1 0
  unfolding group_create
  group_create-Advances ps groups = elim (Bool-cases (str_eq ps.group_id "")) [
    | inl empty ↦ rw (empty, group_create) (Advances-refl groups)
    | inr named ↦ elim (Option-cases (lookup ps.group_id groups)) [
      | inl free ↦
          rw (named, free, group_create) (create-Advances ps.group_id _ groups free named refl refl)
      | inr (g, there) ↦ rw (named, there, group_create) (Advances-refl groups)
    ]
  ]

  group_add-Advances :
      (first : String) (ps : GroupAddParams) (groups : Groups)
      → let r = group_add c first ps groups in Advances groups r.1 (if is_some r.0.0 then 1 else 0)
  unfolding group_add
  group_add-Advances first ps groups = elim (Option-cases (first_met first groups)) [
    | inl nothing ↦ rw (nothing, group_add) (Advances-refl groups)
    | inr ((id, g), met) ↦
        rw (met, group_add)
          (replace-Advances id _ g groups (first_met-lookup first groups id g met) refl refl)
  ]

  group_remove-Advances :
      (first : String) (ps : GroupRemoveParams) (groups : Groups)
      → let r = group_remove c first ps groups in
        Advances groups r.1 (if is_some r.0.0 then 1 else 0)
  unfolding group_remove
  group_remove-Advances first ps groups = elim (Option-cases (first_met first groups)) [
    | inl nothing ↦ rw (nothing, group_remove) (Advances-refl groups)
    | inr ((id, g), met) ↦
        rw (met, group_remove)
          (replace-Advances id _ g groups (first_met-lookup first groups id g met) refl refl)
  ]

  call-Advances :
      (x : Call) (groups : Groups)
      → Advances groups (call c x groups) (if commits_now c x groups then 1 else 0)
  unfolding call commits_now group_create group_join group_add group_remove group_update
      message_fetch
  call-Advances (creates ps) groups = group_create-Advances ps groups
  call-Advances (joins ps) groups = Advances-refl groups
  call-Advances (adds first ps) groups = group_add-Advances first ps groups
  call-Advances (removes first ps) groups = group_remove-Advances first ps groups
  call-Advances (updates ps) groups = Advances-refl groups
  call-Advances (fetches ps) groups = Advances-refl groups

  call_all-Advances :
      (xs : List Call) (groups : Groups)
      → Advances groups (call_all c xs groups) (commits c xs groups)
  unfolding call_all commits
  call_all-Advances [] groups = Advances-refl groups
  call_all-Advances (x ∷ xs) groups =
      let rest = call_all-Advances xs (call c x groups) in
      let step = call-Advances x groups in
      elim (Bool-cases (commits_now c x groups)) [
        | inl raised ↦ rw raised (
            subst (Advances groups _) (omega arith)
              (Advances-trans _ _ _ _ _ (rw raised at step) rest))
        | inr same ↦ rw same (
            subst (Advances groups _) (omega arith)
              (Advances-trans _ _ _ _ _ (rw same at step) rest))
      ]

  -- After any history of calls on valid groups, whichever group the loops meet first: each group stands
  -- once, under its own id, which is not empty; every group of before is there, at an epoch that is
  -- not lower; and the epochs have risen, all together, by the number of GroupAdd and GroupRemove
  -- calls that were answered with a result.
  pub groups_advance :
      (xs : List Call) (groups : Groups)
      → IsValid groups
      → IsValid (call_all c xs groups)
        × Keeps groups (call_all c xs groups)
        × (total_epoch (call_all c xs groups) ≡ total_epoch groups + commits c xs groups)
  groups_advance xs groups v = let a = call_all-Advances xs groups in (a.valid v, a.keeps, a.total)
