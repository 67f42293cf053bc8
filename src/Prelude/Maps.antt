-- ===== src/Prelude/Maps.antt =====
-- A Go map with string keys, as an association list. An assignment to a key that is there
-- replaces its value in place; the order of the list is the order in which `range` meets the keys.
use Prim.Native.String.{String}
use mathlib.Core.Path.{◌≡◌, subst, refl, ap}
use mathlib.Core.Logic.{inl, inr, ◌≢◌}
use mathlib.Core.Bool.{Bool}
use mathlib.Core.Option.{Option, none, some}
use mathlib.Core.List.{List, [], ◌∷◌}
use native.Mathlib.Omega.{arith}
use text.Mathlib.Text.{◌==◌}
use text.Mathlib.TextEquality.{eq_iff}
use text.Mathlib.TextPositions.{eq_refl}
use go_wmp.Prelude.Tests.{Bool-cases, if◌then◌else◌}
use go_wmp.Prelude.Lists.{filter, All}

abbrev pub Map {ℓ} : Type ℓ → Type ℓ
Map V = List (String × V)

module _ {ℓ} {V : Type ℓ} where
  unfoldable pub lookup : String → Map V → Option V
  lookup key [] = none
  lookup key ((other, value) ∷ entries) = if other == key then some value else lookup key entries

  unfoldable pub insert : String → V → Map V → Map V
  insert key value [] = (key, value) ∷ []
  insert key value ((other, old) ∷ entries) =
      if other == key then (key, value) ∷ entries else (other, old) ∷ insert key value entries

  unfoldable pub erase : String → Map V → Map V
  erase key [] = []
  erase key ((other, old) ∷ entries) =
      if other == key then erase key entries else (other, old) ∷ erase key entries

  -- `for k, v := range m { if !keep(v) { delete(m, k) } }`
  abbrev pub retain : (V → Bool) → Map V → Map V
  retain keep = filter (λ (e : String × V). keep e.1)

  -- Each key stands once, as in every Go map.
  abbrev pub HasDistinctKeys : Map V → Type ℓ
  HasDistinctKeys [] = Unit
  HasDistinctKeys ((key, value) ∷ entries) = (lookup key entries ≡ none) × HasDistinctKeys entries

  pub lookup-insert :
      (key other : String) (value : V) (entries : Map V)
      → lookup other (insert key value entries)
        ≡ (if key == other then some value else lookup other entries)
  unfolding lookup insert
  lookup-insert key other value [] = refl
  lookup-insert key other value ((name, old) ∷ entries) = ground (
    arith,
    eq_iff key other,
    eq_iff name key,
    eq_iff name other,
    lookup-insert key other value entries,
  )

  pub lookup-insert_self :
      (key : String) (value : V) (entries : Map V)
      → lookup key (insert key value entries) ≡ some value
  lookup-insert_self key value entries = rw (lookup-insert key key value entries, eq_refl key)

  pub lookup-insert_ne :
      (key other : String) (value : V) (entries : Map V)
      → key ≢ other
      → lookup other (insert key value entries) ≡ lookup other entries
  lookup-insert_ne key other value entries h =
      rw (lookup-insert key other value entries) (ground (arith, eq_iff key other))

  pub lookup-erase :
      (key other : String) (entries : Map V)
      → lookup other (erase key entries) ≡ (if key == other then none else lookup other entries)
  unfolding lookup erase
  lookup-erase key other [] = ground arith
  lookup-erase key other ((name, old) ∷ entries) =
      ground (
        arith,
        eq_iff key other,
        eq_iff name key,
        eq_iff name other,
        lookup-erase key other entries,
      )

  pub lookup-erase_self : (key : String) (entries : Map V) → lookup key (erase key entries) ≡ none
  lookup-erase_self key entries = rw (lookup-erase key key entries, eq_refl key)

  pub lookup-erase_ne :
      (key other : String) (entries : Map V)
      → key ≢ other
      → lookup other (erase key entries) ≡ lookup other entries
  lookup-erase_ne key other entries h =
      rw (lookup-erase key other entries) (ground (arith, eq_iff key other))

  pub insert-HasDistinctKeys :
      (key : String) (value : V) (entries : Map V)
      → HasDistinctKeys entries
      → HasDistinctKeys (insert key value entries)
  unfolding insert lookup
  insert-HasDistinctKeys key value [] h = (refl, tt)
  insert-HasDistinctKeys key value ((other, old) ∷ entries) (a, h) = ground (
    arith,
    eq_iff other key,
    eq_iff key other,
    lookup-insert key other value entries,
    insert-HasDistinctKeys key value entries h,
  )

  pub erase-HasDistinctKeys :
      (key : String) (entries : Map V)
      → HasDistinctKeys entries
      → HasDistinctKeys (erase key entries)
  unfolding erase
  erase-HasDistinctKeys key [] h = tt
  erase-HasDistinctKeys key ((other, old) ∷ entries) (a, h) =
      ground (
        arith,
        eq_iff key other,
        lookup-erase key other entries,
        erase-HasDistinctKeys key entries h,
      )

  -- A value that a map may hold, kept only if it passes.
  abbrev pub keep_if : (V → Bool) → Option V → Option V
  keep_if p none = none
  keep_if p (some value) = if p value then some value else none

  pub lookup-retain :
      (p : V → Bool) (other : String) (entries : Map V)
      → HasDistinctKeys entries
      → lookup other (retain p entries) ≡ keep_if p (lookup other entries)
  unfolding lookup
  lookup-retain p other [] h = refl
  lookup-retain p other ((name, old) ∷ entries) (a, h) =
      ground
        (arith, eq_iff name other, lookup-retain p other entries h, ap (λ key. lookup key entries))

  pub retain-HasDistinctKeys :
      (p : V → Bool) (entries : Map V)
      → HasDistinctKeys entries
      → HasDistinctKeys (retain p entries)
  unfolding lookup
  retain-HasDistinctKeys p [] h = tt
  retain-HasDistinctKeys p ((name, old) ∷ entries) (a, h) =
      ground (arith, lookup-retain p name entries h, retain-HasDistinctKeys p entries h)

  -- What holds of every value holds of what is found.
  pub All-lookup {κ} :
      (P : V → Type κ) (key : String) (entries : Map V) (value : V)
      → All (λ e. P e.1) entries
      → lookup key entries ≡ some value
      → P value
  unfolding lookup
  All-lookup P key [] value h e = cc
  All-lookup P key ((other, old) ∷ entries) value (p, h) e = elim (Bool-cases (other == key)) [
    | inl hit ↦ subst P (ground arith) p
    | inr miss ↦ All-lookup P key entries value h (ground arith)
  ]

  pub All-insert {κ} :
      (P : V → Type κ) (key : String) (value : V) (entries : Map V)
      → All (λ e. P e.1) entries
      → P value
      → All (λ e. P e.1) (insert key value entries)
  unfolding insert
  All-insert P key value [] h p = (p, tt)
  All-insert P key value ((other, old) ∷ entries) (q, h) p = elim (Bool-cases (other == key)) [
    | inl hit ↦ rw hit (p, h)
    | inr miss ↦ rw miss (q, All-insert P key value entries h p)
  ]

  pub All-erase {κ} :
      (P : V → Type κ) (key : String) (entries : Map V)
      → All (λ e. P e.1) entries
      → All (λ e. P e.1) (erase key entries)
  unfolding erase
  All-erase P key [] h = tt
  All-erase P key ((other, old) ∷ entries) (q, h) = elim (Bool-cases (other == key)) [
    | inl hit ↦ rw hit (All-erase P key entries h)
    | inr miss ↦ rw miss (q, All-erase P key entries h)
  ]
