-- ===== src/Schema/Examples.antt =====
-- Tests of the schema validator.
use go_wmp.Prelude.{◌≡◌, refl, String, none, some, List, [], ◌∷◌, true, str_eq, if◌then◌else◌, map}
use go_wmp.Prelude.Maps.{lookup}
use go_wmp.Types.Json.{null}
use go_wmp.Schema.{Library, Validator, failed, done}
use go_wmp.Schema.Cache.{IsSound, OnlyCaches}
use go_wmp.Schema.Answers.{Query, of_method, of_metadata, ask_all, ask_all-uncached, uncached}

-- A library that knows no schema but one, which every value violates.
abbrev library : Library (List String) String String
library = record {
  add_resource = λ id doc c. done (id ∷ c);
  compile = λ path c.
      if str_eq path "methods/flow-start.json" then done path else failed "no such schema";
  conforms = λ s value. some s;
  unmarshal_value = λ text. if str_eq text "" then none else some null;
  unmarshal_id = λ text. none;
}

abbrev validator : Validator (List String) String
validator = record { compiler = []; compiled = []; strict = true }

abbrev alone : Validator (List String) String → Validator (List String) String
alone v = v

abbrev queries : List (Query (List String) String)
queries =
    record { between = alone; kind = of_method "wmp.flow.start"; text = "{}" }
    ∷ record { between = alone; kind = of_method "wmp.flow.start"; text = "" }
    ∷ record { between = alone; kind = of_method "app.ping"; text = "{}" }
    ∷ record { between = alone; kind = of_metadata; text = "{}" }
    ∷ []

alone-OnlyCaches : OnlyCaches library alone
alone-OnlyCaches = record { sound = λ v s. s; same_compiler = λ v. refl; same_strict = λ v. refl }

validator-IsSound : IsSound library validator
unfolding lookup
validator-IsSound path s e = absurd (cc e)

ask_all-uncached_example :
    ask_all library queries validator ≡ map (λ q. uncached library [] true q.kind q.text) queries
ask_all-uncached_example =
    ask_all-uncached library queries validator
      (alone-OnlyCaches, (alone-OnlyCaches, (alone-OnlyCaches, (alone-OnlyCaches, tt))))
      validator-IsSound
