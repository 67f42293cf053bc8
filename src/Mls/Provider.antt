-- ===== src/Mls/Provider.antt =====
-- pkg/wmp/mls/noop.go, `NoopMLSProvider`: epochs, and who gets plaintext.
use go_wmp.Prelude.{
  ◌≡◌, refl, ◌∙◌, ap, ℕ, ◌+◌, String, Bool, true, false, none, some, List, [], ◌∷◌, arith,
  if◌then◌else◌, str_eq, is_some, eq_iff,
}
use go_wmp.Prelude.Maps.{lookup, lookup-insert}
use go_wmp.Jsonrpc.{Codec}
use go_wmp.Mls.Noop.{
  ProviderOption, apply_options, or_zero, Provider, new_noop_mls_provider, with_allow_insecure,
  epoch_of, advance, add_member, remove_member, process_commit, self_update, encrypt, decrypt,
}

-- The calls that change the provider, with the group that they are about.
pub data Commit : Type 0 where
  adds removes processes : String → String → Commit
  updates : String → Commit

unfoldable pub commit : Commit → Provider → Provider
commit (adds id key_package) p = (add_member id key_package p).1
commit (removes id participant) p = (remove_member id participant p).1
commit (processes id text) p = (process_commit id text p).1
commit (updates id) p = (self_update id p).1

unfoldable pub commit_all : List Commit → Provider → Provider
unfolding commit
commit_all [] p = p
commit_all (x ∷ xs) p = commit_all xs (commit x p)

abbrev pub group_of : Commit → String
group_of (adds id key_package) = id
group_of (removes id participant) = id
group_of (processes id text) = id
group_of (updates id) = id

-- How many of the calls are about a group.
abbrev pub count : String → List Commit → ℕ
count id [] = 0
count id (x ∷ xs) = let rest = count id xs in if str_eq (group_of x) id then rest + 1 else rest

epoch_of-advance :
    (id other : String) (p : Provider)
    → epoch_of other (advance id p)
      ≡ (if str_eq id other then epoch_of other p + 1 else epoch_of other p)
unfolding advance
epoch_of-advance id other p = ground (
  arith,
  eq_iff id other,
  ap or_zero (lookup-insert id other (epoch_of id p + 1) p.groups),
  ap (λ key. lookup key p.groups) {x = id} {y = other},
)

epoch_of-commit :
    (x : Commit) (id : String) (p : Provider)
    → epoch_of id (commit x p)
      ≡ (if str_eq (group_of x) id then epoch_of id p + 1 else epoch_of id p)
unfolding commit add_member remove_member process_commit self_update
epoch_of-commit (adds group key_package) id p = epoch_of-advance group id p
epoch_of-commit (removes group participant) id p = epoch_of-advance group id p
epoch_of-commit (processes group text) id p = epoch_of-advance group id p
epoch_of-commit (updates group) id p = epoch_of-advance group id p

-- After any history of calls, the epoch of each group has risen by the number of AddMember,
-- RemoveMember, ProcessCommit and SelfUpdate calls about it; a group that is not stored counts as one
-- at epoch 0. The epoch that ProcessCommit returns is the one it leaves.
pub epoch_counts_commits :
    (xs : List Commit) (id text : String) (p : Provider)
    → (epoch_of id (commit_all xs p) ≡ epoch_of id p + count id xs)
      × ((process_commit id text (commit_all xs p)).0 ≡ epoch_of id p + count id xs + 1)
unfolding commit_all process_commit
epoch_counts_commits [] id text p = (omega arith, omega arith)
epoch_counts_commits (x ∷ xs) id text p =
    let rest = epoch_counts_commits xs id text (commit x p) in
    ground (arith, epoch_of-commit x id p)

-- The argument of the last option, or false.
abbrev pub last_allowed : Bool → List Bool → Bool
last_allowed allowed [] = allowed
last_allowed allowed (b ∷ bs) = last_allowed b bs

-- The options `WithAllowInsecure(b)`, one for each Boolean.
abbrev pub allowing : List Bool → List ProviderOption
allowing [] = []
allowing (b ∷ bs) = with_allow_insecure b ∷ allowing bs

apply_allowed :
    (bs : List Bool) (p : Provider)
    → (apply_options (allowing bs) p).allow_insecure ≡ last_allowed p.allow_insecure bs
unfolding apply_options with_allow_insecure
apply_allowed [] p = refl
apply_allowed (b ∷ bs) p = apply_allowed bs (with_allow_insecure b p)

allowed_after :
    (xs : List Commit) (p : Provider) → (commit_all xs p).allow_insecure ≡ p.allow_insecure
unfolding commit_all commit add_member remove_member process_commit self_update advance
allowed_after [] p = refl
allowed_after (adds id key_package ∷ xs) p = allowed_after xs (commit (adds id key_package) p)
allowed_after (removes id participant ∷ xs) p = allowed_after xs (commit (removes id participant) p)
allowed_after (processes id text ∷ xs) p = allowed_after xs (commit (processes id text) p)
allowed_after (updates id ∷ xs) p = allowed_after xs (commit (updates id) p)

abbrev pub provider_after : List Bool → List Commit → Provider
provider_after bs xs = commit_all xs (new_noop_mls_provider (allowing bs))

allowed_is_last :
    (bs : List Bool) (xs : List Commit)
    → (provider_after bs xs).allow_insecure ≡ last_allowed false bs
unfolding new_noop_mls_provider
allowed_is_last bs xs = allowed_after xs (new_noop_mls_provider (allowing bs)) ∙ apply_allowed bs _

module _ (c : Codec) (bs : List Bool) (xs : List Commit) where
  -- A provider made with any WithAllowInsecure options, after any history of calls: if the last option
  -- allows it, Decrypt gives back what Encrypt was given, in every group and without an error;
  -- if the last option denies it, or there is none, both answer with an error, Encrypt with the empty
  -- text and Decrypt with no text, whatever plaintext and ciphertext they are given.
  pub decrypt-encrypt :
      (id text ciphertext : String)
      → let e = encrypt c id text (provider_after bs xs) in
        let back = decrypt c id e.0.0 (provider_after bs xs) in
        let d = decrypt c id ciphertext (provider_after bs xs) in
        (last_allowed false bs ≡ true → (e.1 ≡ none) × (back ≡ ((some text, 0), none)))
        × (last_allowed false bs ≡ false
            → (e.0.0 ≡ "") × (is_some e.1 ≡ true) × (d.0.0 ≡ none) × (is_some d.1 ≡ true))
  unfolding encrypt decrypt
  decrypt-encrypt id text ciphertext = (
    λ allowed. rw (allowed_is_last bs xs, allowed, encrypt, decrypt) (refl, refl),
    λ denied. rw (allowed_is_last bs xs, denied, encrypt, decrypt) (refl, refl, refl, refl),
  )
