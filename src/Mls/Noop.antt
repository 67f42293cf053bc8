-- ===== src/Mls/Noop.antt =====
-- pkg/wmp/mls/noop.go: the handler and the provider without cryptography. Their mutex makes each method
-- one step.

use go_wmp.Prelude.{
  ℕ, ◌+◌, String, Bool, true, false, not, Option, none, some, List, [], ◌∷◌, str_eq, if◌then◌else◌,
  is_some,
}
use go_wmp.Prelude.Int.{ℤ, pos}
use go_wmp.Prelude.Maps.{Map, lookup, insert, erase}
use go_wmp.Errors.{err_invalid_params, err_mls_error}
use go_wmp.Types.Mls.{
  GroupCreateParams, GroupCreateResult, GroupJoinParams, GroupJoinResult, GroupAddParams,
  GroupAddResult, GroupRemoveParams, GroupRemoveResult, GroupUpdateParams, MessageFetchParams,
  MessageFetchResult, KeyPackage,
}
use go_wmp.Jsonrpc.{Codec, new_rpc_error, reason}
use go_wmp.Profile.{rpc, Returned, Failure}
use go_wmp.Mls.{MlsHandler}

pub record NoopGroup : Type 0 where
  pub group_id : String
  pub epoch : ℕ
  pub members : Map Bool

-- `NoopMLSHandler.groups`
abbrev pub Groups : Type 0
Groups = Map NoopGroup

unfoldable pub new_noop_mls_handler : Groups
new_noop_mls_handler = []

-- The loop over the keys of `Welcomes`.
unfoldable pub invite_all : Map String → Map Bool → Map Bool
invite_all [] members = members
invite_all ((participant, welcome) ∷ welcomes) members =
    invite_all welcomes (insert participant true members)

-- `if name != "" { members[name] = true }`
abbrev pub add_named : String → Map Bool → Map Bool
add_named name members = if not (str_eq name "") then insert name true members else members

unfoldable pub group_create :
    Codec → GroupCreateParams → Groups → Returned GroupCreateResult × Groups
unfolding invite_all
group_create c ps groups =
    if str_eq ps.group_id ""
    then (
      (none, some (rpc (new_rpc_error err_invalid_params (reason c "group_id is required")))),
      groups,
    )
    else if is_some (lookup ps.group_id groups)
    then (
      (none, some (rpc (new_rpc_error err_mls_error (reason c "group already exists")))),
      groups,
    )
    else (
      (some (record { wmp = ps.wmp; group_id = ps.group_id; epoch = pos 0 }), none),
      insert ps.group_id
          (record {
            group_id = ps.group_id;
            epoch = 0;
            members = add_named ps.wmp.sender (invite_all ps.welcomes []);
          })
          groups,
    )

unfoldable pub group_join : GroupJoinParams → Groups → Returned GroupJoinResult × Groups
group_join ps groups =
    ((some (record { wmp = ps.wmp; group_id = ""; epoch = pos 0 }), none), groups)

abbrev pub no_group : {A : Type 0} → Codec → Returned A
no_group c = (none, some (rpc (new_rpc_error err_mls_error (reason c "no group found"))))

-- The entry that a `range` over the map meets first. Go leaves the order open: `first` is the key that
-- comes first if it is one, and each key may be.
unfoldable pub first_met : String → Groups → Option (String × NoopGroup)
first_met first [] = none
first_met first ((id, g) ∷ groups) = elim (lookup first ((id, g) ∷ groups)) [
  | some h ↦ some (first, h)
  | none ↦ some (id, g)
]

-- The loop returns in its first round; the group is changed in place.
unfoldable pub group_add :
    Codec → String → GroupAddParams → Groups → Returned GroupAddResult × Groups
group_add c first ps groups = elim (first_met first groups) [
  | none ↦ (no_group c, groups)
  | some (id, g) ↦ (
    (some (record { wmp = ps.wmp; epoch = pos (g.epoch + 1) }), none),
    insert id (record g { members = add_named ps.participant g.members; epoch = g.epoch + 1 })
        groups,
  )
]

unfoldable pub group_remove :
    Codec → String → GroupRemoveParams → Groups → Returned GroupRemoveResult × Groups
group_remove c first ps groups = elim (first_met first groups) [
  | none ↦ (no_group c, groups)
  | some (id, g) ↦ (
    (some (record { wmp = ps.wmp; epoch = pos (g.epoch + 1) }), none),
    insert id (record g { members = erase ps.participant g.members; epoch = g.epoch + 1 }) groups,
  )
]

unfoldable pub group_update : GroupUpdateParams → Groups → Groups
group_update ps groups = groups

unfoldable pub message_fetch : MessageFetchParams → Groups → Returned MessageFetchResult × Groups
message_fetch ps groups =
    ((some (record { wmp = ps.wmp; messages = []; has_more = false }), none), groups)

-- `choose` stands for the orders of the loops in `GroupAdd` and `GroupRemove`.
unfoldable pub noop_mls_handler : Codec → (Groups → String) → MlsHandler Groups
unfolding group_create group_join group_add group_remove group_update message_fetch
noop_mls_handler c choose = record {
  group_create = λ ctx ps w. group_create c ps w;
  group_join = λ ctx ps w. group_join ps w;
  group_add = λ ctx ps w. group_add c (choose w) ps w;
  group_remove = λ ctx ps w. group_remove c (choose w) ps w;
  group_update = λ ctx ps w. group_update ps w;
  message_fetch = λ ctx ps w. message_fetch ps w;
}

-- `NoopMLSProvider`, with the epoch of each group.
pub record Provider : Type 0 where
  pub groups : Map ℕ
  pub allow_insecure : Bool

abbrev pub ProviderOption : Type 0
ProviderOption = Provider → Provider

unfoldable pub with_allow_insecure : Bool → ProviderOption
with_allow_insecure allow p = record p { allow_insecure = allow }

unfoldable pub apply_options : List ProviderOption → Provider → Provider
apply_options [] p = p
apply_options (opt ∷ opts) p = apply_options opts (opt p)

unfoldable pub new_noop_mls_provider : List ProviderOption → Provider
unfolding apply_options
new_noop_mls_provider opts = apply_options opts (record { groups = []; allow_insecure = false })

unfoldable pub generate_key_package : ℤ → KeyPackage
generate_key_package cipher_suite = record {
  id = "noop-kp-1";
  cipher_suite = cipher_suite;
  key_package = "";
  expires = "2099-12-31T23:59:59Z";
}

-- The loop of `CreateGroup`.
welcome_all : List String → Map String → Map String
welcome_all [] welcomes = welcomes
welcome_all (participant ∷ participants) welcomes =
    welcome_all participants (insert participant "" welcomes)

-- The group info and the welcomes.
unfoldable pub create_group : List String → String × Map String
unfolding welcome_all
create_group participants = ("", welcome_all participants [])

unfoldable pub process_welcome : String → String × ℕ
process_welcome welcome = ("noop-group", 0)

abbrev pub or_zero : Option ℕ → ℕ
or_zero none = 0
or_zero (some n) = n

abbrev pub epoch_of : String → Provider → ℕ
epoch_of group_id p = or_zero (lookup group_id p.groups)

-- `g, ok := p.groups[groupID]; if !ok { new group }; g.epoch++`
unfoldable pub advance : String → Provider → Provider
advance group_id p = record p { groups = insert group_id (epoch_of group_id p + 1) p.groups }

-- The commit and the welcome.
unfoldable pub add_member : String → String → Provider → (String × String) × Provider
add_member group_id key_package p = (("", ""), advance group_id p)

unfoldable pub remove_member : String → String → Provider → String × Provider
remove_member group_id participant p = ("", advance group_id p)

unfoldable pub process_commit : String → String → Provider → ℕ × Provider
process_commit group_id commit p = (epoch_of group_id p + 1, advance group_id p)

unfoldable pub self_update : String → Provider → String × Provider
self_update group_id p = ("", advance group_id p)

abbrev pub plaintext_refusal : String
plaintext_refusal =
    "NoopMLSProvider plaintext mode is not enabled; use WithAllowInsecure(true) only when transport security is sufficient"

-- The text and the epoch, or the error.
unfoldable pub encrypt : Codec → String → String → Provider → (String × ℕ) × Option Failure
encrypt c group_id plaintext p =
    if not p.allow_insecure
    then (("", 0), some (rpc (new_rpc_error err_mls_error (reason c plaintext_refusal))))
    else ((plaintext, 0), none)

unfoldable pub decrypt : Codec → String → String → Provider → (Option String × ℕ) × Option Failure
decrypt c group_id ciphertext p =
    if not p.allow_insecure
    then ((none, 0), some (rpc (new_rpc_error err_mls_error (reason c plaintext_refusal))))
    else ((some ciphertext, 0), none)
