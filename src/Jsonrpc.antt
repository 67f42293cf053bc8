-- ===== src/Jsonrpc.antt =====
-- pkg/wmp/jsonrpc.go: the JSON-RPC structs, their constructors and the decoders with their limits.
-- encoding/json enters as the record `Codec`.
pub mod Depth
pub mod Decode
pub mod Batch
mod Examples
use go_wmp.Prelude.{
  String, List, not, Bool, true, false, ◌||◌, Option, none, some, if◌then◌else◌, is_some, str_eq,
}
use Prim.Native.String
use go_wmp.Prelude.Int.{ℤ}
use go_wmp.Errors.{error_message}
use go_wmp.Types.Json.{Raw, Value}

pub record RpcError : Type 0 where
  pub code : ℤ
  pub message : String
  pub error_data : Raw

pub record Request : Type 0 where
  pub jsonrpc : String
  pub id : Raw
  pub method : String
  pub params : Raw

pub record Response : Type 0 where
  pub jsonrpc : String
  pub id : Raw
  pub result : Raw
  pub error : Option RpcError

-- The union read from a transport.
pub record Message : Type 0 where
  pub jsonrpc : String
  pub id : Raw
  pub method : String
  pub params : Raw
  pub result : Raw
  pub error : Option RpcError

-- What `json.Decoder.Token` finds behind the first value.
pub data Token : Type 0 where
  eof bad : Token
  tok : String → Token

-- encoding/json at the types of this package. `none` is an error.
pub record Codec : Type 0 where
  -- `json.Marshal` of a string
  pub quote : String → String
  -- `json.Unmarshal` into a string, and into an `interface{}`
  pub unmarshal_string : String → Option String
  pub unmarshal_value : String → Option Value
  -- `Decoder.Decode` into a `Message` and into a `[]*Message` (a JSON null is a nil element), with
  -- the rest of the input; `Decoder.Token` on that rest
  pub read_message : String → Option (Message × String)
  pub read_batch : String → Option (List (Option Message) × String)
  pub next_token : String → Token

-- `len(raw) == 0`
abbrev pub is_empty_raw : Raw → Bool
is_empty_raw none = true
is_empty_raw (some s) = str_eq s ""

-- `string(raw)`
abbrev pub raw_text : Raw → String
raw_text none = ""
raw_text (some s) = s

-- `json.Unmarshal(raw, &x)`: a nil text is an error.
abbrev pub unmarshal {ℓ} : {A : Type ℓ} → (String → Option A) → Raw → Option A
unmarshal f none = none
unmarshal f (some s) = f s

unfoldable pub is_notification : Request → Bool
is_notification r = is_empty_raw r.id || str_eq (raw_text r.id) "null"

-- `data` is given marshalled; nil is `none`.
unfoldable pub new_rpc_error : ℤ → Raw → RpcError
new_rpc_error code error_data = record {
  code = code;
  message = error_message code;
  error_data = error_data;
}

-- The marshalled `map[string]string{"reason": s}`.
abbrev pub reason : Codec → String → Raw
reason c s = some (Prim.Native.String.◌++◌ "{\"reason\":" (Prim.Native.String.◌++◌ (c.quote s) "}"))

-- `params` is given marshalled; `none` is an error of `json.Marshal`.
unfoldable pub new_request : Codec → String → String → Option String → Option Request
new_request c id method none = none
new_request c id method (some p) = some (record {
  jsonrpc = "2.0";
  id = if str_eq id "" then none else some (c.quote id);
  method = method;
  params = some p;
})

unfoldable pub new_notification : Codec → String → Option String → Option Request
unfolding new_request
new_notification c method p = new_request c "" method p

unfoldable pub new_response : Raw → Option String → Option Response
new_response id none = none
new_response id (some r) = some (record { jsonrpc = "2.0"; id = id; result = some r; error = none })

-- The error is a pointer, which may be nil.
unfoldable pub new_error_response : Raw → Option RpcError → Response
new_error_response id e = record { jsonrpc = "2.0"; id = id; result = none; error = e }

unfoldable pub is_request : Message → Bool
is_request m = not (str_eq m.method "")

unfoldable pub is_response : Message → Bool
is_response m = is_some m.result || is_some m.error

unfoldable pub as_request : Message → Request
as_request m = record { jsonrpc = m.jsonrpc; id = m.id; method = m.method; params = m.params }

unfoldable pub as_response : Message → Response
as_response m = record { jsonrpc = m.jsonrpc; id = m.id; result = m.result; error = m.error }
