-- ===== src/Jsonrpc/Depth.antt =====
-- pkg/wmp/jsonrpc.go, `depth`: the nesting of a JSON value.
use go_wmp.Prelude.{ℕ, ◌+◌, ◌-◌, ◌≤◌, ◌↔◌, ltb, if◌then◌else◌, arith}
use go_wmp.Types.Json.{
  Value, Items, Fields, null, bool, float, number, str, arr, obj, nil, cons, end, field,
}

-- The two loops keep the greatest `depth(child) + 1` in `max`.
unfoldable mutual
  pub depth : Value → ℕ
  depth (obj fs) = depth_fields 1 fs
  depth (arr xs) = depth_items 1 xs
  depth (number n) = 1
  depth (str s) = 1
  depth (float n) = 1
  depth (bool b) = 1
  depth null = 1

  pub depth_items : ℕ → Items → ℕ
  depth_items max nil = max
  depth_items max (cons child xs) =
      depth_items (if ltb max (depth child + 1) then depth child + 1 else max) xs

  pub depth_fields : ℕ → Fields → ℕ
  depth_fields max end = max
  depth_fields max (field k child fs) =
      depth_fields (if ltb max (depth child + 1) then depth child + 1 else max) fs

-- A value fits into `n` levels: a scalar takes one, and so does a container around its children.
unfoldable mutual
  pub Within : ℕ → Value → Type 0
  Within n (obj fs) = (1 ≤ n) × WithinFields (n - 1) fs
  Within n (arr xs) = (1 ≤ n) × WithinItems (n - 1) xs
  Within n (number t) = 1 ≤ n
  Within n (str s) = 1 ≤ n
  Within n (float t) = 1 ≤ n
  Within n (bool b) = 1 ≤ n
  Within n null = 1 ≤ n

  pub WithinItems : ℕ → Items → Type 0
  WithinItems n nil = Unit {0}
  WithinItems n (cons child xs) = Within n child × WithinItems n xs

  pub WithinFields : ℕ → Fields → Type 0
  WithinFields n end = Unit {0}
  WithinFields n (field k child fs) = Within n child × WithinFields n fs

bump_le :
    (max d n : ℕ)
    → 1 ≤ max
    → ((if ltb max (d + 1) then d + 1 else max) ≤ n) ↔ ((max ≤ n) × (d ≤ n - 1))
bump_le max d n h = ground arith

bump_pos : (max d : ℕ) → 1 ≤ max → 1 ≤ (if ltb max (d + 1) then d + 1 else max)
bump_pos max d h = ground arith

mutual
  unfolding depth Within

  depth_fits : (v : Value) (n : ℕ) → (depth v ≤ n) ↔ Within n v
  depth_fits (obj fs) n = depth_fields_fits fs 1 n (omega arith)
  depth_fits (arr xs) n = depth_items_fits xs 1 n (omega arith)
  depth_fits (number t) n = (λ h. h, λ h. h)
  depth_fits (str s) n = (λ h. h, λ h. h)
  depth_fits (float t) n = (λ h. h, λ h. h)
  depth_fits (bool b) n = (λ h. h, λ h. h)
  depth_fits null n = (λ h. h, λ h. h)

  depth_items_fits :
      (xs : Items) (max n : ℕ)
      → 1 ≤ max
      → (depth_items max xs ≤ n) ↔ ((max ≤ n) × WithinItems (n - 1) xs)
  depth_items_fits nil max n h = (λ k. (k, tt), λ k. k.0)
  depth_items_fits (cons child xs) max n h = (
    λ k.
        let (a, b) = (depth_items_fits xs _ n (bump_pos max (depth child) h)).0 k in
        let (c, d) = (bump_le max (depth child) n h).0 a in
        (c, ((depth_fits child (n - 1)).0 d, b)),
    λ k.
        (depth_items_fits xs _ n (bump_pos max (depth child) h)).1
          ((bump_le max (depth child) n h).1 (k.0, (depth_fits child (n - 1)).1 k.1.0), k.1.1),
  )

  depth_fields_fits :
      (fs : Fields) (max n : ℕ)
      → 1 ≤ max
      → (depth_fields max fs ≤ n) ↔ ((max ≤ n) × WithinFields (n - 1) fs)
  depth_fields_fits end max n h = (λ k. (k, tt), λ k. k.0)
  depth_fields_fits (field name child fs) max n h = (
    λ k.
        let (a, b) = (depth_fields_fits fs _ n (bump_pos max (depth child) h)).0 k in
        let (c, d) = (bump_le max (depth child) n h).0 a in
        (c, ((depth_fits child (n - 1)).0 d, b)),
    λ k.
        (depth_fields_fits fs _ n (bump_pos max (depth child) h)).1
          ((bump_le max (depth child) n h).1 (k.0, (depth_fits child (n - 1)).1 k.1.0), k.1.1),
  )

-- The depth that the loops compute is at most `n` exactly when the value fits into `n` levels.
pub depth-le_iff : (v : Value) (n : ℕ) → (depth v ≤ n) ↔ Within n v
depth-le_iff v n = depth_fits v n
