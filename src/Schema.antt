-- ===== src/Schema.antt =====
-- pkg/wmp/schema/schema.go: the validator with its cache of compiled schemas. The JSON Schema library is
-- the record `Library`: its compiler, compiled schemas and errors are types of its own. The embedded files
-- are a list of paths with their contents, in the order of the walk; directories are not in it.
pub mod Cache
pub mod Answers
mod Examples
use Prim.Native.String
use go_wmp.Prelude.{
  ◌-◌, String, Bool, true, false, not, Option, none, some, List, [], ◌∷◌, str_eq, if◌then◌else◌,
  map,
}
use go_wmp.Prelude.Maps.{Map, lookup, insert}
use go_wmp.Types.Json.{Value}

pub data Either (E A : Type 0) : Type 0 where
  failed : E → Either E A
  done : A → Either E A

-- github.com/santhosh-tekuri/jsonschema, and `json.Unmarshal` into an interface{} and into a struct with
-- the field $id. `add_resource` returns the compiler as it leaves it.
pub record Library (C S E : Type 0) : Type 0 where
  pub add_resource : String → Value → C → Either E C
  pub compile : String → C → Either E S
  pub conforms : S → Value → Option E
  pub unmarshal_value : String → Option Value
  pub unmarshal_id : String → Option String

unfoldable pub method_schema_map : Map String
method_schema_map =
    ("wmp.session.create", "methods/session-create-request.json")
    ∷ ("wmp.session.close", "methods/session-close.json")
    ∷ ("wmp.flow.start", "methods/flow-start.json")
    ∷ ("wmp.flow.progress", "methods/flow-progress.json")
    ∷ ("wmp.flow.action", "methods/flow-action.json")
    ∷ ("wmp.flow.complete", "methods/flow-complete.json")
    ∷ ("wmp.flow.error", "methods/flow-error.json")
    ∷ ("wmp.resolve", "methods/resolve-request.json")
    ∷ ("wmp.message.deliver", "methods/message-deliver.json")
    ∷ ("wmp.message.ack", "methods/message-ack.json")
    ∷ ("wmp.capability.update", "methods/capability-update-request.json")
    ∷ []

unfoldable pub response_schema_map : Map String
response_schema_map =
    ("wmp.session.create", "methods/session-create-response.json")
    ∷ ("wmp.resolve", "methods/resolve-response.json")
    ∷ ("wmp.capability.list", "methods/capability-list-response.json")
    ∷ []

pub record Validator (C S : Type 0) : Type 0 where
  pub compiler : C
  pub compiled : Map S
  pub strict : Bool

abbrev pub ValidatorOption : Type 0 → Type 0 → Type 0
ValidatorOption C S = Validator C S → Validator C S

unfoldable pub with_strict : {C S : Type 0} → Bool → ValidatorOption C S
with_strict strict v = record v { strict = strict }

pub data LoadError (E : Type 0) : Type 0 where
  parsing : String → LoadError E
  adding adding_by_id : String → E → LoadError E

-- What a validation reports.
pub data Invalid (E : Type 0) : Type 0 where
  no_schema no_response_schema : String → Invalid E
  compiling : String → E → Invalid E
  parsing_json : Invalid E
  violation : E → Invalid E

-- `strings.HasSuffix(path, ".json")`
abbrev pub is_json_path : String → Bool
is_json_path path = str_eq (String.slice path (String.len path - 5) (String.len path)) ".json"

module _ {C S E : Type 0} (lib : Library C S E) where
  -- The registration under `$id`.
  unfoldable pub add_by_id : String → Value → C → Either (LoadError E) C
  add_by_id text doc c = elim (lib.unmarshal_id text) [
    | none ↦ done c
    | some id ↦ if str_eq id "" then done c else elim (lib.add_resource id doc c) [
      | failed e ↦ failed (adding_by_id id e)
      | done c' ↦ done c'
    ]
  ]

  unfoldable pub add_file : String → String → C → Either (LoadError E) C
  unfolding add_by_id
  add_file path text c =
      if not (is_json_path path) then done c else elim (lib.unmarshal_value text) [
        | none ↦ failed (parsing path)
        | some doc ↦ elim (lib.add_resource path doc c) [
          | failed e ↦ failed (adding path e)
          | done c' ↦ add_by_id text doc c'
        ]
      ]

  -- The walk.
  unfoldable pub add_files : List (String × String) → C → Either (LoadError E) C
  unfolding add_file
  add_files [] c = done c
  add_files ((path, text) ∷ files) c = elim (add_file path text c) [
    | failed e ↦ failed e
    | done c' ↦ add_files files c'
  ]

  apply_all : List (ValidatorOption C S) → Validator C S → Validator C S
  apply_all [] v = v
  apply_all (opt ∷ opts) v = apply_all opts (opt v)

  unfoldable pub new_validator :
      List (String × String) → C → List (ValidatorOption C S) → Either (LoadError E) (Validator C S)
  unfolding add_files apply_all
  new_validator files c opts = elim (add_files files c) [
    | failed e ↦ failed e
    | done c' ↦ done (apply_all opts (record { compiler = c'; compiled = []; strict = false }))
  ]

  -- `getSchema` under the write lock: the second look, and the compilation.
  unfoldable pub compile_locked : String → Validator C S → Either E S × Validator C S
  compile_locked path v = elim (lookup path v.compiled) [
    | some s ↦ (done s, v)
    | none ↦ elim (lib.compile path v.compiler) [
      | failed e ↦ (failed e, v)
      | done s ↦ (done s, record v { compiled = insert path s v.compiled })
    ]
  ]

  -- The look under the read lock comes first; `between` is what other goroutines do between the locks.
  unfoldable pub get_schema :
      (Validator C S → Validator C S) → String → Validator C S → Either E S × Validator C S
  unfolding compile_locked
  get_schema between path v = elim (lookup path v.compiled) [
    | some s ↦ (done s, v)
    | none ↦ compile_locked path (between v)
  ]

  -- `none` is a valid message.
  unfoldable pub check : Either E S → String → String → Option (Invalid E)
  check (failed e) path text = some (compiling path e)
  check (done s) path text = elim (lib.unmarshal_value text) [
    | none ↦ some parsing_json
    | some value ↦ elim (lib.conforms s value) [ none ↦ none | some e ↦ some (violation e) ]
  ]

  unfoldable pub validate :
      (Validator C S → Validator C S)
      → String
      → String
      → Validator C S
      → Option (Invalid E) × Validator C S
  unfolding get_schema check
  validate between path text v = let (s, v') = get_schema between path v in (check s path text, v')

  unfoldable pub validate_method :
      (Validator C S → Validator C S)
      → String
      → String
      → Validator C S
      → Option (Invalid E) × Validator C S
  unfolding validate
  validate_method between method text v = elim (lookup method method_schema_map) [
    | none ↦ (if v.strict then some (no_schema method) else none, v)
    | some path ↦ validate between path text v
  ]

  unfoldable pub validate_response :
      (Validator C S → Validator C S)
      → String
      → String
      → Validator C S
      → Option (Invalid E) × Validator C S
  unfolding validate
  validate_response between method text v = elim (lookup method response_schema_map) [
    | none ↦ (if v.strict then some (no_response_schema method) else none, v)
    | some path ↦ validate between path text v
  ]

  unfoldable pub validate_metadata :
      (Validator C S → Validator C S) → String → Validator C S → Option (Invalid E) × Validator C S
  unfolding validate
  validate_metadata between text v = validate between "wmp-metadata.json" text v

-- The keys, in the order in which `range` meets them.
unfoldable pub method_schemas : List String
method_schemas = map (λ e. e.0) method_schema_map
