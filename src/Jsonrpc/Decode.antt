-- ===== src/Jsonrpc/Decode.antt =====
-- pkg/wmp/jsonrpc.go, `DecodeOptions`, `DecodeMessage`, `requireEOF` and `checkMessageDepth`.
use go_wmp.Prelude.{
  ◌⊎◌, le→leb, eq_iff, leb→le, ap, subst, ◌∙◌, ◌≤◌, ℕ, ◌≡◌, refl, ◌↔◌, String, Bool, true, false,
  Option, none, some, arith, ltb, leb, str_eq, Bool-cases, Option-cases, inl, inr, if◌then◌else◌,
  is_some,
}
use Prim.Native.String
use go_wmp.Prelude.Int.{ℤ, positive_or}
use go_wmp.Types.Json.{Raw, Value}
use go_wmp.Jsonrpc.{Codec, Message, Token, RpcError, unmarshal, is_empty_raw}
use go_wmp.Jsonrpc.Depth.{depth, Within, depth-le_iff}

pub record DecodeOptions : Type 0 where
  pub max_size : ℤ
  pub max_depth : ℤ

abbrev pub default_max_message_size : ℕ
default_max_message_size = 1048576

abbrev pub default_max_depth : ℕ
default_max_depth = 32

-- `none` is the nil pointer.
unfoldable pub max_size : Option DecodeOptions → ℕ
max_size none = default_max_message_size
max_size (some o) = positive_or o.max_size default_max_message_size

unfoldable pub max_depth : Option DecodeOptions → ℕ
max_depth none = default_max_depth
max_depth (some o) = positive_or o.max_depth default_max_depth

pub data DecodeError : Type 0 where
  too_large : ℕ → DecodeError
  malformed : DecodeError
  bad_version : String → DecodeError
  too_deep : ℕ → DecodeError
  trailing_data : String → DecodeError
  bad_tail : DecodeError

-- What a decoder does: it returns, with a value or an error, or it follows a nil pointer and panics.
pub data Decoded {ℓ} (A : Type ℓ) : Type ℓ where
  ok : A → Decoded A
  fail : DecodeError → Decoded A
  nil_dereference : Decoded A

infixl 5 ◌>>=◌ ◌>>◌
abbrev pub ◌>>=◌ {ℓ κ} : {A : Type ℓ} {B : Type κ} → Decoded A → (A → Decoded B) → Decoded B
ok a >>= f = f a
fail e >>= f = fail e
nil_dereference >>= f = nil_dereference

abbrev pub ◌>>◌ {ℓ} : {B : Type ℓ} → Decoded (Unit {0}) → Decoded B → Decoded B
m >> k = m >>= λ _. k

abbrev pub guard : Bool → DecodeError → Decoded (Unit {0})
guard true e = ok tt
guard false e = fail e

-- `v, ok := ...; if !ok { return error }`
abbrev pub or_fail {ℓ} : {A : Type ℓ} → Option A → DecodeError → Decoded A
or_fail none e = fail e
or_fail (some a) e = ok a

pub then-eq-ok_iff {ℓ} :
    {B : Type ℓ} (m : Decoded (Unit {0})) (k : Decoded B) {b : B}
    → ((m >> k) ≡ ok b) ↔ ((m ≡ ok tt) × (k ≡ ok b))
then-eq-ok_iff (ok a) k = (λ h. (refl, h), λ h. h.1)
then-eq-ok_iff (fail e) k = (λ h. cc, λ h. cc)
then-eq-ok_iff nil_dereference k = (λ h. cc, λ h. cc)

pub guard-eq-ok_iff : (b : Bool) (e : DecodeError) → (guard b e ≡ ok tt) ↔ (b ≡ true)
guard-eq-ok_iff true e = (λ h. refl, λ h. refl)
guard-eq-ok_iff false e = (λ h. cc, λ h. cc)

-- The check ends without a panic.
abbrev pub Settles : Decoded (Unit {0}) → Type 0
Settles m = (m ≡ ok tt) ⊎ ((e : DecodeError) × (m ≡ fail e))

then-Settles : (m k : Decoded (Unit {0})) → Settles m → Settles k → Settles (m >> k)
then-Settles m k (inl done) s = rw done s
then-Settles m k (inr (e, failed)) s = inr (e, rw failed)

module _ (c : Codec) where
  unfoldable pub require_eof : String → Decoded (Unit {0})
  require_eof rest = elim (c.next_token rest) [
    | Token.eof ↦ ok tt
    | Token.bad ↦ fail bad_tail
    | Token.tok t ↦ fail (trailing_data t)
  ]

  -- The closure `check`: an empty text passes, and so does one that does not parse.
  unfoldable pub check_depth : Raw → ℕ → Decoded (Unit {0})
  check_depth raw limit =
      if is_empty_raw raw then ok tt else elim (unmarshal c.unmarshal_value raw) [
        | none ↦ ok tt
        | some v ↦ if ltb limit (depth v) then fail (too_deep limit) else ok tt
      ]

  abbrev check_error_data : Option RpcError → ℕ → Decoded (Unit {0})
  check_error_data none limit = ok tt
  check_error_data (some e) limit =
      if is_some e.error_data then check_depth e.error_data limit else ok tt

  unfoldable pub check_message_depth : Message → ℕ → Decoded (Unit {0})
  unfolding check_depth
  check_message_depth m limit = do
    check_depth m.params limit
    check_depth m.result limit
    check_error_data m.error limit

  unfoldable pub decode_message : Option DecodeOptions → String → Decoded Message
  decode_message o text = do
    guard (leb (Prim.Native.String.len text) (max_size o)) (too_large (max_size o))
    (m, rest) ← or_fail (c.read_message text) malformed
    guard (str_eq m.jsonrpc "2.0") (bad_version m.jsonrpc)
    check_message_depth m (max_depth o)
    require_eof rest
    ok m

  -- A raw text that parses to a value fits into `limit` levels.
  abbrev pub RawWithin : ℕ → Raw → Type 0
  RawWithin limit raw =
      (is_empty_raw raw ≡ false)
      → (v : Value) → unmarshal c.unmarshal_value raw ≡ some v
      → Within limit v

  abbrev pub ErrorWithin : ℕ → Option RpcError → Type 0
  ErrorWithin limit none = Unit
  ErrorWithin limit (some e) = RawWithin limit e.error_data

  -- The message is one that the decoders let through, as far as its fields go.
  pub record IsAcceptable (limit : ℕ) (m : Message) : Type 0 where
    pub version : m.jsonrpc ≡ "2.0"
    pub params_fit : RawWithin limit m.params
    pub result_fits : RawWithin limit m.result
    pub error_fits : ErrorWithin limit m.error

  check_depth_iff : (raw : Raw) (limit : ℕ) → (check_depth raw limit ≡ ok tt) ↔ RawWithin limit raw
  unfolding check_depth
  check_depth_iff none limit = (λ _ h v e. cc, λ _. refl)
  check_depth_iff (some s) limit = elim (Bool-cases (str_eq s "")) [
    | inl blank ↦ (λ _ h v e. cc, λ _. rw blank)
    | inr more ↦ rw more (elim (Option-cases (c.unmarshal_value s)) [
      | inl bad ↦ (λ _ h v e. cc, λ _. rw bad)
      | inr (v, good) ↦ (
        λ k h w e. (depth-le_iff w limit).0 (ground arith),
        λ k. let fits = (depth-le_iff v limit).1 (k refl v good) in ground arith,
      )
    ])
  ]

  gated_iff :
      (raw : Raw) (limit : ℕ)
      → ((if is_some raw then check_depth raw limit else ok tt) ≡ ok tt) ↔ RawWithin limit raw
  gated_iff none limit = (λ _ h v e. cc, λ _. refl)
  gated_iff (some s) limit = check_depth_iff (some s) limit

  error_data_iff :
      (e : Option RpcError) (limit : ℕ) → (check_error_data e limit ≡ ok tt) ↔ ErrorWithin limit e
  error_data_iff none limit = (λ _. tt, λ _. refl)
  error_data_iff (some r) limit = gated_iff r.error_data limit

  pub check_message_depth_iff :
      (m : Message) (limit : ℕ)
      → (check_message_depth m limit ≡ ok tt)
        ↔ (RawWithin limit m.params × RawWithin limit m.result × ErrorWithin limit m.error)
  unfolding check_message_depth
  check_message_depth_iff m limit = (
    λ h.
        let (a, k) = (then-eq-ok_iff _ _).0 h in
        let (b, d) = (then-eq-ok_iff _ _).0 k in
        ((check_depth_iff _ _).0 a, (check_depth_iff _ _).0 b, (error_data_iff _ _).0 d),
    λ h. (then-eq-ok_iff _ _).1 (
      (check_depth_iff _ _).1 h.0,
      (then-eq-ok_iff _ _).1 ((check_depth_iff _ _).1 h.1, (error_data_iff _ _).1 h.2),
    ),
  )

  pub require_eof_iff :
      (rest : String) → (require_eof rest ≡ ok tt) ↔ (c.next_token rest ≡ Token.eof)
  unfolding require_eof
  require_eof_iff rest = ground arith

  check_depth_total : (raw : Raw) (limit : ℕ) → Settles (check_depth raw limit)
  unfolding check_depth
  check_depth_total none limit = inl refl
  check_depth_total (some s) limit = elim (Bool-cases (str_eq s "")) [
    | inl blank ↦ rw blank (inl refl)
    | inr more ↦ rw more (elim (Option-cases (c.unmarshal_value s)) [
      | inl bad ↦ rw bad (inl refl)
      | inr (v, good) ↦ rw good (elim (Bool-cases (ltb limit (depth v))) [
        | inl deep ↦ rw deep (inr (too_deep limit, refl))
        | inr fits ↦ rw fits (inl refl)
      ])
    ])
  ]

  check_error_data_total : (e : Option RpcError) (limit : ℕ) → Settles (check_error_data e limit)
  check_error_data_total none limit = inl refl
  check_error_data_total (some r) limit = elim (Bool-cases (is_some r.error_data)) [
    | inl there ↦ rw there (check_depth_total r.error_data limit)
    | inr gone ↦ rw gone (inl refl)
  ]

  check_total : (m : Message) (limit : ℕ) → Settles (check_message_depth m limit)
  unfolding check_message_depth
  check_total m limit =
      then-Settles _ _ (check_depth_total m.params limit)
        (then-Settles _ _ (check_depth_total m.result limit) (check_error_data_total m.error limit))

  -- The checks that both decoders make of one message.
  abbrev pub element : ℕ → Message → Decoded (Unit {0})
  element limit m = do
    guard (str_eq m.jsonrpc "2.0") (bad_version m.jsonrpc)
    check_message_depth m limit

  Settles-element : (limit : ℕ) (m : Message) → Settles (element limit m)
  Settles-element limit m = elim (Bool-cases (str_eq m.jsonrpc "2.0")) [
    | inl right ↦ rw right (check_total m limit)
    | inr wrong ↦ rw wrong (inr (bad_version m.jsonrpc, refl))
  ]

  pub element_iff : (limit : ℕ) (m : Message) → (element limit m ≡ ok tt) ↔ IsAcceptable limit m
  element_iff limit m = (
    λ h.
        let (a, b) = (then-eq-ok_iff _ _).0 h in
        let (x, y, z) = (check_message_depth_iff m limit).0 b in
        record {
          version = (eq_iff _ _).0 ((guard-eq-ok_iff _ _).0 a);
          params_fit = x;
          result_fits = y;
          error_fits = z;
        },
    λ fine.
        (then-eq-ok_iff (guard (str_eq m.jsonrpc "2.0") (bad_version m.jsonrpc))
            (check_message_depth m limit)).1
          (
            (guard-eq-ok_iff _ (bad_version m.jsonrpc)).1 ((eq_iff _ _).1 fine.version),
            (check_message_depth_iff m limit).1
                (fine.params_fit, fine.result_fits, fine.error_fits),
          ),
  )

  -- The checks of one message either let it through, and it is acceptable, or stop with an error.
  pub element_cases :
      (limit : ℕ) (m : Message)
      → (IsAcceptable limit m × (element limit m ≡ ok tt))
        ⊎ ((e : DecodeError) × (element limit m ≡ fail e))
  element_cases limit m = elim (Settles-element limit m) [
    | inl fine ↦ inl ((element_iff limit m).0 fine, fine)
    | inr bad ↦ inr bad
  ]

  pub Settles-require_eof : (rest : String) → Settles (require_eof rest)
  unfolding require_eof
  Settles-require_eof rest = ground arith

  -- What `DecodeMessage` does with the message that it has read.
  abbrev finish : ℕ → Message × String → Decoded Message
  finish limit (m, rest) = do
    guard (str_eq m.jsonrpc "2.0") (bad_version m.jsonrpc)
    check_message_depth m limit
    require_eof rest
    ok m

  finish_iff :
      (limit : ℕ) (r : Message × String) (m : Message)
      → (finish limit r ≡ ok m)
        ↔ ((r.0 ≡ m) × IsAcceptable limit r.0 × (c.next_token r.1 ≡ Token.eof))
  finish_iff limit (m', rest) m = (
    λ h.
        let (a, h') = (then-eq-ok_iff _ _).0 h in
        let (b, h2) = (then-eq-ok_iff _ _).0 h' in
        let (d, same) = (then-eq-ok_iff _ _).0 h2 in
        let (x, y, z) = (check_message_depth_iff m' limit).0 b in
        (
          cc,
          record {
            version = (eq_iff _ _).0 ((guard-eq-ok_iff _ _).0 a);
            params_fit = x;
            result_fits = y;
            error_fits = z;
          },
          (require_eof_iff rest).0 d,
        ),
    λ (same, fine, end). (then-eq-ok_iff _ _).1 (
      (guard-eq-ok_iff _ _).1 ((eq_iff _ _).1 fine.version),
      (then-eq-ok_iff _ _).1 (
        (check_message_depth_iff m' limit).1 (fine.params_fit, fine.result_fits, fine.error_fits),
        (then-eq-ok_iff _ _).1 ((require_eof_iff rest).1 end, ap ok same),
      ),
    ),
  )

  -- `DecodeMessage` returns a message exactly when the text is within the size limit, the decoder
  -- reads that message, its version is "2.0", its parameters, result and error data fit into the
  -- depth limit, and nothing but space follows.
  pub decode_message-eq-ok_iff :
      (o : Option DecodeOptions) (text : String) (m : Message)
      → (decode_message o text ≡ ok m) ↔ (
          (Prim.Native.String.len text ≤ max_size o)
          × ((rest : String) × (c.read_message text ≡ some (m, rest))
              × (c.next_token rest ≡ Token.eof))
          × IsAcceptable (max_depth o) m)
  unfolding decode_message
  decode_message-eq-ok_iff o text m = (sound, complete)
    where
      read :
          (or_fail (c.read_message text) malformed >>= finish (max_depth o)) ≡ ok m
          → (r : Message × String) × (c.read_message text ≡ some r)
            × (finish (max_depth o) r ≡ ok m)
      read k = elim (Option-cases (c.read_message text)) [
        | inl gone ↦ absurd (cc (rw gone at k))
        | inr (r, there) ↦ (r, there, rw there at k)
      ]

      sound :
          decode_message o text ≡ ok m
          → (Prim.Native.String.len text ≤ max_size o)
            × ((rest : String) × (c.read_message text ≡ some (m, rest))
                × (c.next_token rest ≡ Token.eof))
            × IsAcceptable (max_depth o) m
      sound h =
          let (small, k) = (then-eq-ok_iff _ _).0 h in
          let (r, there, done) = read k in
          let (same, fine, end) = (finish_iff (max_depth o) r m).0 done in
          (
            leb→le _ _ ((guard-eq-ok_iff _ _).0 small),
            (r.1, there ∙ ap (λ x. some (x, r.1)) same, end),
            subst (IsAcceptable (max_depth o)) same fine,
          )

      complete :
          (Prim.Native.String.len text ≤ max_size o)
            × ((rest : String) × (c.read_message text ≡ some (m, rest))
                × (c.next_token rest ≡ Token.eof))
            × IsAcceptable (max_depth o) m
          → decode_message o text ≡ ok m
      complete (small, (rest, got, end), fine) =
          (then-eq-ok_iff
              (guard (leb (Prim.Native.String.len text) (max_size o)) (too_large (max_size o)))
              (or_fail (c.read_message text) malformed >>= finish (max_depth o))).1
            (
              (guard-eq-ok_iff (leb (Prim.Native.String.len text) (max_size o))
                    (too_large (max_size o))).1
                  (le→leb _ _ small),
              rw got ((finish_iff (max_depth o) (m, rest) m).1 (refl, fine, end)),
            )
