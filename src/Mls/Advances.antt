-- ===== src/Mls/Advances.antt =====
-- pkg/wmp/mls/noop.go, `NoopMLSHandler`: what a call may do to its groups.
use text.Mathlib.TextPositions.{eq_refl}
use go_wmp.Prelude.{
  ◌≤◌, ◌≡◌, sym, ℕ, ◌+◌, String, false, none, some, [], ◌∷◌, arith, str_eq, Bool-cases,
  Option-cases, inl, inr, eq_iff,
}
use go_wmp.Prelude.Maps.{lookup, insert, lookup-insert, HasDistinctKeys, insert-HasDistinctKeys}
use go_wmp.Mls.Noop.{Groups, NoopGroup, first_met}

-- The epochs of all groups, added up.
abbrev pub total_epoch : Groups → ℕ
total_epoch [] = 0
total_epoch ((id, g) ∷ groups) = g.epoch + total_epoch groups

-- Each group stands once, under its own id, which is not empty.
pub record IsValid (groups : Groups) : Type 0 where
  pub distinct : HasDistinctKeys groups
  pub named : (id : String) (g : NoopGroup) → lookup id groups ≡ some g → g.group_id ≡ id
  pub not_empty : lookup "" groups ≡ none

-- A group that is there stays, under its id, and its epoch does not fall.
abbrev pub Keeps : Groups → Groups → Type 0
Keeps old new =
    (id : String) (g : NoopGroup)
    → lookup id old ≡ some g
    → (h : NoopGroup) × (lookup id new ≡ some h) × (g.epoch ≤ h.epoch)

pub first_met-lookup :
    (first : String) (groups : Groups) (id : String) (g : NoopGroup)
    → first_met first groups ≡ some (id, g)
    → lookup id groups ≡ some g
unfolding first_met lookup
first_met-lookup first [] id g e = cc
first_met-lookup first ((key, h) ∷ groups) id g e =
    elim (Option-cases (lookup first ((key, h) ∷ groups))) [
      | inl other ↦ ground (arith, eq_refl key)
      | inr (k, there) ↦ ground (arith, eq_iff key first)
    ]

total-insert_new :
    (id : String) (g : NoopGroup) (groups : Groups)
    → lookup id groups ≡ none
    → total_epoch (insert id g groups) ≡ total_epoch groups + g.epoch
unfolding insert lookup
total-insert_new id g [] e = omega arith
total-insert_new id g ((key, h) ∷ groups) e = ground (arith, total-insert_new id g groups)

total-insert_old :
    (id : String) (g h : NoopGroup) (groups : Groups)
    → lookup id groups ≡ some h
    → total_epoch (insert id g groups) + h.epoch ≡ total_epoch groups + g.epoch
unfolding insert lookup
total-insert_old id g h [] e = absurd (cc e)
total-insert_old id g h ((key, k) ∷ groups) e = elim (Bool-cases (str_eq key id)) [
  | inl same ↦ let found : k ≡ h = ground arith in rw (same, found) (omega arith)
  | inr other ↦
      let before = total-insert_old id g h groups (ground arith) in rw other (omega (arith, before))
]

-- What a call may do: the groups stay valid, none is lost, and the epochs rise by `n` in all.
pub record Advances (old new : Groups) (n : ℕ) : Type 0 where
  pub valid : IsValid old → IsValid new
  pub keeps : Keeps old new
  pub total : total_epoch new ≡ total_epoch old + n

pub Advances-refl : (groups : Groups) → Advances groups groups 0
Advances-refl groups = record {
  valid = λ v. v;
  keeps = λ id g there. (g, there, omega arith);
  total = omega arith;
}

-- A group that is replaced under its id, with its epoch raised by one.
pub replace-Advances :
    (id : String) (g h : NoopGroup) (groups : Groups)
    → lookup id groups ≡ some h
    → g.group_id ≡ h.group_id
    → g.epoch ≡ h.epoch + 1
    → Advances groups (insert id g groups) 1
replace-Advances id g h groups there same raised = record {
  valid = λ v. record {
    distinct = insert-HasDistinctKeys id g groups v.distinct;
    named = λ other k found. elim (Bool-cases (str_eq id other)) [
      | inl eq ↦
          let name : id ≡ other = (eq_iff id other).0 eq in
          let new : g ≡ k = ground (arith, lookup-insert id other g groups) in
          let old : h.group_id ≡ id = v.named id h there in rw (sym new, same, old) name
      | inr ne ↦ v.named other k (ground (arith, lookup-insert id other g groups))
    ];
    not_empty = elim (Bool-cases (str_eq id "")) [
      | inl eq ↦
          let name : id ≡ "" = (eq_iff id "").0 eq in absurd (cc (rw (name, v.not_empty) at there))
      | inr ne ↦ let free = v.not_empty in ground (arith, lookup-insert id "" g groups)
    ];
  };
  keeps = λ other k found. elim (Bool-cases (str_eq id other)) [
    | inl eq ↦
        let name : id ≡ other = (eq_iff id other).0 eq in
        let old : h ≡ k = ground arith in
        (g, ground (arith, lookup-insert id other g groups), rw (sym old) (omega (arith, raised)))
    | inr ne ↦ (k, ground (arith, lookup-insert id other g groups), omega arith)
  ];
  total = let sum = total-insert_old id g h groups there in omega (arith, raised, sum);
}

-- A new group, at epoch 0.
pub create-Advances :
    (id : String) (g : NoopGroup) (groups : Groups)
    → lookup id groups ≡ none
    → str_eq id "" ≡ false
    → g.group_id ≡ id
    → g.epoch ≡ 0
    → Advances groups (insert id g groups) 0
create-Advances id g groups free named same zero_epoch = record {
  valid = λ v. record {
    distinct = insert-HasDistinctKeys id g groups v.distinct;
    named = λ other k found. elim (Bool-cases (str_eq id other)) [
      | inl eq ↦
          let name : id ≡ other = (eq_iff id other).0 eq in
          let new : g ≡ k = ground (arith, lookup-insert id other g groups) in
          rw (sym new, same) name
      | inr ne ↦ v.named other k (ground (arith, lookup-insert id other g groups))
    ];
    not_empty = let absent = v.not_empty in ground (arith, lookup-insert id "" g groups);
  };
  keeps = λ other k found.
      (k, ground (arith, lookup-insert id other g groups, eq_iff id other), omega arith);
  total = let sum = total-insert_new id g groups free in omega (arith, zero_epoch, sum);
}

pub Advances-trans :
    (old mid new : Groups) (n k : ℕ)
    → Advances old mid n
    → Advances mid new k
    → Advances old new (n + k)
Advances-trans old mid new n k a b = record {
  valid = λ v. b.valid (a.valid v);
  keeps = λ id g there.
      let (h, found, le) = a.keeps id g there in
      let (l, later, le') = b.keeps id h found in (l, later, omega (arith, le, le'));
  total = omega (arith, a.total, b.total);
}
