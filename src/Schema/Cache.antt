-- ===== src/Schema/Cache.antt =====
-- pkg/wmp/schema/schema.go: a compiled schema, from the cache or not.
use go_wmp.Prelude.{
  sym, ◌≡◌, refl, ◌∙◌, ap, String, some, arith, str_eq, eq_iff, Option-cases, Bool-cases, inl, inr,
}
use go_wmp.Prelude.Maps.{lookup, insert, lookup-insert}
use go_wmp.Schema.{Library, Validator, Either, failed, done, compile_locked, get_schema}

module _ {C S E : Type 0} (lib : Library C S E) where
  -- Every schema in the cache is what the compiler makes of its path.
  abbrev pub IsSound : Validator C S → Type 0
  IsSound v =
      (path : String) (s : S)
      → lookup path v.compiled ≡ some s
      → lib.compile path v.compiler ≡ done s

  -- Other validators work on the cache only.
  pub record OnlyCaches (f : Validator C S → Validator C S) : Type 0 where
    pub sound : (v : Validator C S) → IsSound v → IsSound (f v)
    pub same_compiler : (v : Validator C S) → (f v).compiler ≡ v.compiler
    pub same_strict : (v : Validator C S) → (f v).strict ≡ v.strict

  -- A call's answer is that of the compiler, and the validator stays sound.
  pub record Agrees (path : String) (v v' : Validator C S) (s : Either E S) : Type 0 where
    pub compiled_same : s ≡ lib.compile path v.compiler
    pub sound_after : IsSound v'
    pub compiler_after : v'.compiler ≡ v.compiler
    pub strict_after : v'.strict ≡ v.strict

  insert-IsSound :
      (path : String) (s : S) (v : Validator C S)
      → lib.compile path v.compiler ≡ done s
      → IsSound v
      → IsSound (record v { compiled = insert path s v.compiled })
  insert-IsSound path s v e sound other k there = elim (Bool-cases (str_eq path other)) [
    | inl same ↦
        let name : path ≡ other = (eq_iff path other).0 same in
        let found : s ≡ k = ground (arith, lookup-insert path other s v.compiled) in
        rw name at (e ∙ ap done found)
    | inr ne ↦ sound other k (ground (arith, lookup-insert path other s v.compiled))
  ]

  compile_locked-Agrees :
      (path : String) (v : Validator C S)
      → IsSound v
      → let r = compile_locked lib path v in Agrees path v r.1 r.0
  unfolding compile_locked
  compile_locked-Agrees path v sound = elim (Option-cases (lookup path v.compiled)) [
    | inr (s, there) ↦
        rw (there, compile_locked)
          (record {
            compiled_same = sym (sound path s there);
            sound_after = sound;
            compiler_after = refl;
            strict_after = refl;
          })
    | inl new ↦ rw (new, compile_locked) (go (lib.compile path v.compiler) refl)
  ]
    where
      go :
          (c : Either E S)
          → lib.compile path v.compiler ≡ c
          → let r : Either E S × Validator C S = elim c [
            | failed e ↦ (failed e, v)
            | done s ↦ (done s, record v { compiled = insert path s v.compiled })
          ] in
            Agrees path v r.1 r.0
      go (failed e) same = record {
        compiled_same = sym same;
        sound_after = sound;
        compiler_after = refl;
        strict_after = refl;
      }
      go (done s) same = record {
        compiled_same = sym same;
        sound_after = insert-IsSound path s v same sound;
        compiler_after = refl;
        strict_after = refl;
      }

  pub get_schema-Agrees :
      (between : Validator C S → Validator C S) (path : String) (v : Validator C S)
      → OnlyCaches between
      → IsSound v
      → let r = get_schema lib between path v in Agrees path v r.1 r.0
  unfolding get_schema
  get_schema-Agrees between path v only sound = elim (Option-cases (lookup path v.compiled)) [
    | inr (s, there) ↦
        rw (there, get_schema)
          (record {
            compiled_same = sym (sound path s there);
            sound_after = sound;
            compiler_after = refl;
            strict_after = refl;
          })
    | inl new ↦
        let a = compile_locked-Agrees path (between v) (only.sound v sound) in
        rw (new, get_schema)
          (record {
            compiled_same = a.compiled_same ∙ ap (lib.compile path) (only.same_compiler v);
            sound_after = a.sound_after;
            compiler_after = a.compiler_after ∙ only.same_compiler v;
            strict_after = a.strict_after ∙ only.same_strict v;
          })
  ]
