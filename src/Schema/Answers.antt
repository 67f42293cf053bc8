-- ===== src/Schema/Answers.antt =====
-- pkg/wmp/schema/schema.go: the cache changes no answer.
use go_wmp.Prelude.{
  ◌≡◌, refl, ◌∙◌, ap, String, Bool, Option, none, some, List, [], ◌∷◌, if◌then◌else◌, Option-cases,
  inl, inr, map,
}
use go_wmp.Prelude.Maps.{lookup}
use go_wmp.Schema.{
  Library, Validator, Invalid, no_schema, no_response_schema, check, validate, validate_method,
  validate_response, validate_metadata, method_schema_map, response_schema_map,
}
use go_wmp.Schema.Cache.{IsSound, OnlyCaches, get_schema-Agrees}
use go_wmp.Prelude.{All}

-- What is validated.
pub data Kind : Type 0 where
  of_method of_response : String → Kind
  of_metadata : Kind

-- A call of the validator, with what the other goroutines do during it.
pub record Query (C S : Type 0) : Type 0 where
  pub between : Validator C S → Validator C S
  pub kind : Kind
  pub text : String

module _ {C S E : Type 0} (lib : Library C S E) where
  unfoldable pub answer_to :
      (Validator C S → Validator C S)
      → Kind
      → String
      → Validator C S
      → Option (Invalid E) × Validator C S
  answer_to between (of_method method) text v = validate_method lib between method text v
  answer_to between (of_response method) text v = validate_response lib between method text v
  answer_to between of_metadata text v = validate_metadata lib between text v

  unfoldable pub ask_all : List (Query C S) → Validator C S → List (Option (Invalid E))
  unfolding answer_to
  ask_all [] v = []
  ask_all (q ∷ qs) v =
      let (answer, v') = answer_to q.between q.kind q.text v in answer ∷ ask_all qs v'

  -- The answer without a cache: a listed message is checked against its schema, compiled afresh.
  abbrev pub uncached : C → Bool → Kind → String → Option (Invalid E)
  uncached compiler strict (of_method method) text = elim (lookup method method_schema_map) [
    | none ↦ if strict then some (no_schema method) else none
    | some path ↦ check lib (lib.compile path compiler) path text
  ]
  uncached compiler strict (of_response method) text = elim (lookup method response_schema_map) [
    | none ↦ if strict then some (no_response_schema method) else none
    | some path ↦ check lib (lib.compile path compiler) path text
  ]
  uncached compiler strict of_metadata text =
      check lib (lib.compile "wmp-metadata.json" compiler) "wmp-metadata.json" text

  -- A call answers as if there were no cache, and leaves a sound validator.
  record Answers (answer : Option (Invalid E)) (v : Validator C S)
      (r : Option (Invalid E) × Validator C S) : Type 0 where
    same : r.0 ≡ answer
    sound : IsSound lib r.1
    compiler_same : r.1.compiler ≡ v.compiler
    strict_same : r.1.strict ≡ v.strict

  validate-Answers :
      (between : Validator C S → Validator C S) (path text : String) (v : Validator C S)
      → OnlyCaches lib between
      → IsSound lib v
      → Answers
          (check lib (lib.compile path v.compiler) path text)
          v
          (validate lib between path text v)
  unfolding validate
  validate-Answers between path text v only sound =
      let a = get_schema-Agrees lib between path v only sound in
      record {
        same = ap (λ s. check lib s path text) a.compiled_same;
        sound = a.sound_after;
        compiler_same = a.compiler_after;
        strict_same = a.strict_after;
      }

  unlisted :
      (answer : Option (Invalid E)) (v : Validator C S)
      → IsSound lib v
      → Answers answer v (answer, v)
  unlisted answer v sound = record {
    same = refl;
    sound = sound;
    compiler_same = refl;
    strict_same = refl;
  }

  answer_to-Answers :
      (between : Validator C S → Validator C S) (kind : Kind) (text : String) (v : Validator C S)
      → OnlyCaches lib between
      → IsSound lib v
      → Answers (uncached v.compiler v.strict kind text) v (answer_to between kind text v)
  unfolding answer_to validate_method validate_response validate_metadata
  answer_to-Answers between (of_method method) text v only sound =
      elim (Option-cases (lookup method method_schema_map)) [
        | inl new ↦ rw (new, validate_method, uncached) (unlisted _ v sound)
        | inr (path, there) ↦
            rw (there, validate_method, uncached) (validate-Answers between path text v only sound)
      ]
  answer_to-Answers between (of_response method) text v only sound =
      elim (Option-cases (lookup method response_schema_map)) [
        | inl new ↦ rw (new, validate_response, uncached) (unlisted _ v sound)
        | inr (path, there) ↦
            rw (there, validate_response, uncached)
              (validate-Answers between path text v only sound)
      ]
  answer_to-Answers between of_metadata text v only sound =
      validate-Answers between "wmp-metadata.json" text v only sound

  -- On a validator whose cache is sound, as a new one's is, any history of calls is answered as if every
  -- schema were compiled afresh for every call, also when other goroutines fill the cache between the
  -- two locks of a call.
  pub ask_all-uncached :
      (qs : List (Query C S)) (v : Validator C S)
      → All (λ q. OnlyCaches lib q.between) qs
      → IsSound lib v
      → ask_all qs v ≡ map (λ q. uncached v.compiler v.strict q.kind q.text) qs
  unfolding ask_all
  ask_all-uncached [] v others sound = refl
  ask_all-uncached (q ∷ qs) v (only, others) sound =
      let a = answer_to-Answers q.between q.kind q.text v only sound in
      let r : Option (Invalid E) × Validator C S = answer_to q.between q.kind q.text v in
      let rest : ask_all qs r.1 ≡ map (λ p. uncached v.compiler v.strict p.kind p.text) qs =
        ask_all-uncached qs r.1 others a.sound ∙ rw (a.compiler_same, a.strict_same) refl in
      rw (a.same, rest) refl
