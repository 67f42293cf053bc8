-- ===== src/Types/Json.antt =====
-- The JSON values of the source: `json.RawMessage`, `interface{}` trees and time stamps.
use go_wmp.Prelude.{ℕ, String, Bool, Option}
use go_wmp.Prelude.Maps.{Map}

-- `json.RawMessage`: `none` is nil; the text is counted in bytes.
abbrev pub Raw : Type 0
Raw = Option String

-- `time.Time`, in nanoseconds; 0 is the zero time.
abbrev pub Time : Type 0
Time = ℕ

-- `Capabilities`: a map from capability names to their parameters.
abbrev pub Capabilities : Type 0
Capabilities = Map Raw

-- What `json.Unmarshal` puts into an `interface{}`. A number is a float64, or a `json.Number`
-- (its text) under `UseNumber`.
mutual
  pub data Value : Type 0 where
    null : Value
    bool : Bool → Value
    float : String → Value
    number : String → Value
    str : String → Value
    obj : Fields → Value
    arr : Items → Value

  pub data Fields : Type 0 where
    end : Fields
    field : String → Value → Fields → Fields

  pub data Items : Type 0 where
    nil : Items
    cons : Value → Items → Items
