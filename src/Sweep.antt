-- ===== src/Sweep.antt =====
-- The loop that both in-memory stores run in `Cleanup` (pkg/wmp/session.go and
-- pkg/wmp/invitation.go): it deletes each expired entry of a map and counts the deletions. Every
-- round reads the time anew: `clock i` is the reading of round `i`.
use go_wmp.Prelude.{
  ap, ℕ, suc, ◌+◌, ◌≤◌, ◌≡◌, refl, String, Bool, true, false, none, some, List, [], ◌∷◌, arith,
  eq_iff, if◌then◌else◌, length,
}
use go_wmp.Prelude.Maps.{Map, lookup, HasDistinctKeys}
use go_wmp.Types.Json.{Time}

module _ {V : Type 0} (expired : Time → V → Bool) where
  unfoldable pub sweep : (ℕ → Time) → ℕ → Map V → Map V × ℕ
  sweep clock i [] = ([], 0)
  sweep clock i ((id, v) ∷ m) =
      let rest = sweep clock (suc i) m in
      if expired (clock i) v then (rest.0, suc rest.1) else ((id, v) ∷ rest.0, rest.1)

  -- The loop that collects the values which have not expired and pass a test.
  unfoldable pub collect : (V → Bool) → (ℕ → Time) → ℕ → Map V → List V
  collect wanted clock i [] = []
  collect wanted clock i ((id, v) ∷ m) =
      let rest = collect wanted clock (suc i) m in
      if wanted v then (if expired (clock i) v then rest else v ∷ rest) else rest

  pub length-sweep :
      (clock : ℕ → Time) (i : ℕ) (m : Map V)
      → length (sweep clock i m).0 + (sweep clock i m).1 ≡ length m
  unfolding sweep
  length-sweep clock i [] = refl
  length-sweep clock i ((id, v) ∷ m) = ground (arith, length-sweep clock (suc i) m)

  lookup-sweep-none :
      (clock : ℕ → Time) (i : ℕ) (m : Map V) (k : String)
      → lookup k m ≡ none
      → lookup k (sweep clock i m).0 ≡ none
  unfolding sweep lookup
  lookup-sweep-none clock i [] k h = refl
  lookup-sweep-none clock i ((id, v) ∷ m) k h = ground (arith, lookup-sweep-none clock (suc i) m k)

  -- What the sweep does to one key: an entry that has expired by `early` goes, one that has not
  -- expired by `late` stays, if every reading lies between the two.
  pub lookup-sweep :
      (early late : Time) (clock : ℕ → Time) (i : ℕ) (m : Map V) (k : String)
      → ((s t : Time) (v : V) → s ≤ t → expired s v ≡ true → expired t v ≡ true)
      → ((j : ℕ) → (early ≤ clock j) × (clock j ≤ late))
      → HasDistinctKeys m
      → ((v : V)
          → lookup k m ≡ some v
          → expired early v ≡ true
          → lookup k (sweep clock i m).0 ≡ none)
        × ((v : V)
            → lookup k m ≡ some v
            → expired late v ≡ false
            → lookup k (sweep clock i m).0 ≡ some v)
        × (lookup k m ≡ none → lookup k (sweep clock i m).0 ≡ none)
  unfolding sweep lookup
  lookup-sweep early late clock i m k mono within d =
      (gone i m d, kept i m d, lookup-sweep-none clock i m k)
    where
      gone :
          (i : ℕ) (m : Map V)
          → HasDistinctKeys m
          → (v : V) → lookup k m ≡ some v
          → expired early v ≡ true
          → lookup k (sweep clock i m).0 ≡ none
      gone i [] d v h e = refl
      gone i ((id, w) ∷ m) (fresh, d) v h e = ground (
        arith,
        eq_iff id k,
        gone (suc i) m d v,
        lookup-sweep-none clock (suc i) m k,
        mono early (clock i) v (within i).0,
        ap (λ x. lookup x m),
      )

      kept :
          (i : ℕ) (m : Map V)
          → HasDistinctKeys m
          → (v : V) → lookup k m ≡ some v
          → expired late v ≡ false
          → lookup k (sweep clock i m).0 ≡ some v
      kept i [] d v h e = cc
      kept i ((id, w) ∷ m) (fresh, d) v h e =
          ground (arith, eq_iff id k, kept (suc i) m d v, mono (clock i) late v (within i).1)

  -- A collection that reads the time `t` throughout gives the same after a sweep that read no later.
  pub collect-sweep :
      (wanted : V → Bool) (t : Time) (clock : ℕ → Time) (i : ℕ) (a b : ℕ) (m : Map V)
      → ((s t : Time) (v : V) → s ≤ t → expired s v ≡ true → expired t v ≡ true)
      → ((j : ℕ) → clock j ≤ t)
      → collect wanted (λ _. t) a (sweep clock i m).0 ≡ collect wanted (λ _. t) b m
  unfolding sweep collect
  collect-sweep wanted t clock i a b [] mono past = refl
  collect-sweep wanted t clock i a b ((id, v) ∷ m) mono past = ground (
    arith,
    mono (clock i) t v (past i),
    collect-sweep wanted t clock (suc i) (suc a) (suc b) m mono past,
    collect-sweep wanted t clock (suc i) a (suc b) m mono past,
  )
