-- ===== src/Jsonrpc/Batch.antt =====
-- pkg/wmp/jsonrpc.go, `DecodeBatch` and `trimSpace`.
use Prim.Native.Char.{code}
use Prim.Native.String
use go_wmp.Prelude.{
  refl, subst, ◌∙◌, Option-cases, le→leb, ◌≢◌, Bool-cases, ap, leb→le, ◌++◌, inr, inl, ◌≤◌, ◌↔◌,
  ◌⊎◌, All, map, ◌≡◌, ℕ, String, Bool, false, ◌||◌, Option, none, some, List, [], ◌∷◌, leb,
  if◌then◌else◌, ◌==◌,
}
use go_wmp.Jsonrpc.{Token, true, Codec, Message}
use go_wmp.Jsonrpc.Decode.{
  require_eof_iff, element_iff, then-eq-ok_iff, Settles, Settles-require_eof, element_cases, fail,
  DecodeError, IsAcceptable, element, DecodeOptions, max_size, max_depth, too_large, malformed,
  Decoded, ok, nil_dereference, ◌>>=◌, ◌>>◌, guard, or_fail, require_eof,
}

is_space : ℕ → Bool
is_space ch = ch == b' ' || ch == 9 || ch == 10 || ch == 13

unfoldable pub trim_space : String → String
unfolding is_space
trim_space String.[] = String.[]
trim_space (String.◌∷◌ ch s) = if is_space (code ch) then trim_space s else String.◌∷◌ ch s

-- `len(data) == 0 || data[0] != '['`, negated
unfoldable pub starts_array : String → Bool
starts_array String.[] = false
starts_array (String.◌∷◌ ch s) = code ch == b'['

guard-then-eq-nil {ℓ} :
    {B : Type ℓ} (b : Bool) (e : DecodeError) (k : Decoded B)
    → (guard b e >> k) ≡ nil_dereference
    → (b ≡ true) × (k ≡ nil_dereference)
guard-then-eq-nil true e k h = (refl, h)
guard-then-eq-nil false e k h = cc

Settles-then-ne-nil {ℓ} :
    {B : Type ℓ} (m : Decoded (Unit {0})) (b : B) → Settles m → (m >> ok b) ≢ nil_dereference
Settles-then-ne-nil m b (inl done) h = cc (rw done at h)
Settles-then-ne-nil m b (inr (e, failed)) h = cc (rw failed at h)

module _ (c : Codec) where
  -- The loop over the batch: reading a field of a nil element panics.
  unfoldable pub check_batch : ℕ → List (Option Message) → Decoded (List Message)
  check_batch limit [] = ok []
  check_batch limit (none ∷ msgs) = nil_dereference
  check_batch limit (some m ∷ msgs) = do
    element c limit m
    rest ← check_batch limit msgs
    ok (m ∷ rest)

  -- `ok none` is the result (nil, nil) for a text that is no array.
  unfoldable pub decode_batch : Option DecodeOptions → String → Decoded (Option (List Message))
  decode_batch o text = do
    guard (leb (Prim.Native.String.len text) (max_size o)) (too_large (max_size o))
    let body = trim_space text
    if starts_array body
        then (do
          (msgs, rest) ← or_fail (c.read_batch body) malformed
          checked ← check_batch (max_depth o) msgs
          require_eof c rest
          ok (some checked))
        else ok none

  abbrev pub Acceptable : ℕ → List Message → Type 0
  Acceptable limit = All (IsAcceptable c limit)

  -- The element at which the loop panics: a nil behind acceptable messages.
  abbrev pub MeetsNil : ℕ → List (Option Message) → Type 0
  MeetsNil limit msgs =
      (before : List Message) × (after : List (Option Message)) × (msgs
        ≡ map some before ++ none ∷ after)
      × Acceptable limit before

  check_batch-eq-nil_of :
      (limit : ℕ) (before : List Message) (after : List (Option Message))
      → Acceptable limit before
      → check_batch limit (map some before ++ none ∷ after) ≡ nil_dereference
  unfolding check_batch
  check_batch-eq-nil_of limit [] after h = refl
  check_batch-eq-nil_of limit (m ∷ before) after (fine, h) =
      rw ((element_iff c limit m).1 fine, check_batch-eq-nil_of limit before after h)

  check_batch_cases :
      (limit : ℕ) (msgs : List (Option Message))
      → ((ms : List Message) × (check_batch limit msgs ≡ ok ms)
          × (msgs ≡ map some ms)
          × Acceptable limit ms)
        ⊎ ((e : DecodeError) × (check_batch limit msgs ≡ fail e))
        ⊎ MeetsNil limit msgs
  unfolding check_batch
  check_batch_cases limit [] = inl ([], refl, refl, tt)
  check_batch_cases limit (none ∷ msgs) = inr (inr ([], msgs, refl, tt))
  check_batch_cases limit (some m ∷ msgs) = elim (element_cases c limit m) [
    | inr (e, bad) ↦ inr (inl (e, rw bad))
    | inl (fine, good) ↦ rw good (elim (check_batch_cases limit msgs) [
      | inl (ms, done, same, all) ↦ inl (m ∷ ms, rw done, ap (◌∷◌ (some m)) same, (fine, all))
      | inr (inl (e, bad)) ↦ inr (inl (e, rw bad))
      | inr (inr (before, after, same, all)) ↦
          inr (inr (m ∷ before, after, ap (◌∷◌ (some m)) same, (fine, all)))
    ])
  ]

  -- What `DecodeBatch` does with the elements that it has read.
  abbrev pub finish : ℕ → List (Option Message) × String → Decoded (Option (List Message))
  finish limit (msgs, rest) = do
    checked ← check_batch limit msgs
    require_eof c rest
    ok (some checked)

  finish-eq-nil :
      (limit : ℕ) (r : List (Option Message) × String)
      → finish limit r ≡ nil_dereference
      → MeetsNil limit r.0
  finish-eq-nil limit (msgs, rest) h = elim (check_batch_cases limit msgs) [
    | inl (ms, done, same, fine) ↦ absurd (
        Settles-then-ne-nil (require_eof c rest) (some ms) (Settles-require_eof c rest)
          (rw done at h))
    | inr (inl (e, bad)) ↦ absurd (cc (rw bad at h))
    | inr (inr met) ↦ met
  ]

  read-eq-nil :
      (limit : ℕ) (body : String)
      → (if starts_array body
          then or_fail (c.read_batch body) malformed >>= finish limit
          else ok none)
        ≡ nil_dereference
      → (starts_array body ≡ true)
        × ((msgs : List (Option Message)) × (rest : String) × (c.read_batch body
              ≡ some (msgs, rest))
            × MeetsNil limit msgs)
  read-eq-nil limit body h = elim (Bool-cases (starts_array body)) [
    | inr other ↦ absurd (cc (rw other at h))
    | inl array ↦ elim (Option-cases (c.read_batch body)) [
      | inl bad ↦ absurd (cc (rw (array, bad) at h))
      | inr ((msgs, rest), read) ↦
          (array, (msgs, rest, read, finish-eq-nil limit (msgs, rest) (rw (array, read) at h)))
    ]
  ]

  -- `DecodeBatch` panics exactly on a JSON array within the size limit that holds a null behind
  -- acceptable messages only: the loop reads the version of a nil element.
  pub decode_batch-eq-nil_iff :
      (o : Option DecodeOptions) (text : String)
      → (decode_batch o text ≡ nil_dereference) ↔ (
          (Prim.Native.String.len text ≤ max_size o)
          × (starts_array (trim_space text) ≡ true)
          × ((msgs : List (Option Message)) × (rest : String) × (c.read_batch (trim_space text)
                ≡ some (msgs, rest))
              × MeetsNil (max_depth o) msgs))
  unfolding decode_batch
  decode_batch-eq-nil_iff o text = (
    λ h.
        let (small, k) = guard-then-eq-nil (leb (Prim.Native.String.len text) (max_size o)) _ _ h in
        let (array, met) = read-eq-nil (max_depth o) (trim_space text) k in
        (leb→le _ _ small, array, met),
    λ (small, array, (msgs, rest, read, (before, after, same, fine))). rw (
      le→leb _ _ small,
      array,
      read,
      same,
      check_batch-eq-nil_of (max_depth o) before after fine,
    ),
  )

  finish-eq-ok :
      (limit : ℕ) (r : List (Option Message) × String) (ms : List Message)
      → finish limit r ≡ ok (some ms)
      → (r.0 ≡ map some ms) × Acceptable limit ms × (c.next_token r.1 ≡ Token.eof)
  finish-eq-ok limit (msgs, rest) ms h = elim (check_batch_cases limit msgs) [
    | inl (ms', done, same, fine) ↦
        let (end, now) = (then-eq-ok_iff (require_eof c rest) (ok (some ms'))).0 (rw done at h) in
        let equal : ms' ≡ ms = cc in
        (
          same ∙ ap (map some) equal,
          subst (Acceptable limit) equal fine,
          (require_eof_iff c rest).0 end,
        )
    | inr (inl (e, bad)) ↦ absurd (cc (rw bad at h))
    | inr (inr (before, after, same, fine)) ↦
        absurd (cc (rw (same, check_batch-eq-nil_of limit before after fine) at h))
  ]

  read-eq-ok :
      (limit : ℕ) (body : String) (ms : List Message)
      → (if starts_array body
          then or_fail (c.read_batch body) malformed >>= finish limit
          else ok none)
        ≡ ok (some ms)
      → Acceptable limit ms
        × ((rest : String) × (c.read_batch body ≡ some (map some ms, rest))
            × (c.next_token rest ≡ Token.eof))
  read-eq-ok limit body ms h = elim (Bool-cases (starts_array body)) [
    | inr other ↦ absurd (cc (rw other at h))
    | inl array ↦ elim (Option-cases (c.read_batch body)) [
      | inl bad ↦ absurd (cc (rw (array, bad) at h))
      | inr ((msgs, rest), read) ↦
          let (same, fine, end) = finish-eq-ok limit (msgs, rest) ms (rw (array, read) at h) in
          (fine, (rest, read ∙ ap (λ x. some (x, rest)) same, end))
    ]
  ]

  -- A batch that `DecodeBatch` returns is the whole array that the decoder read, in its order; each
  -- of its messages has version "2.0" and fits into the depth limit, and only space follows.
  pub decode_batch_sound :
      (o : Option DecodeOptions) (text : String) (ms : List Message)
      → decode_batch o text ≡ ok (some ms)
      → Acceptable (max_depth o) ms
        × ((rest : String) × (c.read_batch (trim_space text) ≡ some (map some ms, rest))
            × (c.next_token rest ≡ Token.eof))
  unfolding decode_batch
  decode_batch_sound o text ms h =
      let (small, k) =
        (then-eq-ok_iff (guard (leb (Prim.Native.String.len text) (max_size o)) _) _).0 h in
      read-eq-ok (max_depth o) (trim_space text) ms k
