-- ===== src/Httpsse/Lines.antt =====
-- pkg/wmp/httpsse/httpsse.go, `readSSE`: the lines of a stream.
use Prim.Native.Char.{Char, char, code}
use Prim.Native.String.{[], ◌∷◌, ◌++◌}
use text.Mathlib.TextLemmas.{cons-append, nil-append}
use go_wmp.Prelude.{refl, ◌≡◌, String, List, false, if◌then◌else◌, ◌==◌, arith}
use go_wmp.Discovery.{contains_any, has_char}

abbrev pub add_char : Char → List String → List String
add_char c List.[] = List.[]
add_char c (List.◌∷◌ line lines) = List.◌∷◌ (c ∷ line) lines

-- What `ReadString('\n')` yields, call by call: the lines with their line breaks; a rest without one comes
-- with an error and is dropped.
unfoldable pub read_lines : String → List String
read_lines [] = List.[]
read_lines (c ∷ s) =
    let rest = read_lines s in if code c == 10 then List.◌∷◌ "\n" rest else add_char c rest

-- A line is read up to its line break.
pub read_lines-line :
    (line rest : String)
    → contains_any line "\n" ≡ false
    → read_lines (line ++ ("\n" ++ rest)) ≡ List.◌∷◌ (line ++ "\n") (read_lines rest)
unfolding read_lines contains_any has_char
read_lines-line [] rest h =
    rw
      (
        nil-append ("\n" ++ rest),
        cons-append (char 10 tt) "" rest,
        nil-append rest,
        nil-append "\n",
      )
      refl
read_lines-line (c ∷ line) rest h =
    let later = read_lines-line line rest (ground arith) in
    let other : (code c == 10) ≡ false = ground arith in
    rw (cons-append c line ("\n" ++ rest), other, later, cons-append c line "\n") refl
