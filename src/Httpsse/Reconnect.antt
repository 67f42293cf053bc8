-- ===== src/Httpsse/Reconnect.antt =====
-- pkg/wmp/httpsse/httpsse.go: a client that connects again, from `handleSSE` to `readSSE`.
use Prim.Native.String.{◌++◌ as append}
use go_wmp.Prelude.{◌≡◌, ℕ, String, List, ◌++◌, All}
use go_wmp.Httpsse.Stream.{IsLine}

-- TrimSpace takes the line break off the fixed lines, off every id's line and off those of the texts `bs`,
-- and nothing else; no id and no text of `bs` has a line break inside.
pub record Trims (trim_space : String → String) (event_id : ℕ → String) (bs : List String)
    : Type 0 where
  pub plain : trim_space "event: wmp\n" ≡ "event: wmp"
  pub blank : trim_space "\n" ≡ ""
  pub ids : (n : ℕ) → IsLine trim_space (append "id: " (event_id n))
  pub data_lines : All (λ b. IsLine trim_space (append "data: " b)) bs
