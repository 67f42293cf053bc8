-- ===== src/Stdio/Examples.antt =====
-- Tests of the transport over lines.
use Prim.Native.Char.{Char, char, code}
use Prim.Native.String.{[], ◌∷◌, ◌++◌ as append}
use text.Mathlib.TextLemmas.{cons-append, nil-append}
use go_wmp.Prelude.{
  ◌≡◌, refl, String, Bool, false, none, some, List, ◌++◌, str_eq, not, if◌then◌else◌, ◌==◌, arith,
}
use go_wmp.Prelude.Int.{pos}
use go_wmp.Discovery.{contains_any, has_char}
use go_wmp.Stdio.{Scanner, StdioTransport, end_of_input, new_with_max_line}
use go_wmp.Stdio.Lines.{SplitsLines, write_all, read_all, heard, read_all-write_all, ends_in_return}

abbrev add_char : Char → List String → List String
add_char c List.[] = List.◌∷◌ (c ∷ []) List.[]
add_char c (List.◌∷◌ line lines) = List.◌∷◌ (c ∷ line) lines

abbrev split : String → List String
split [] = List.[]
split (c ∷ s) = let rest = split s in if code c == 10 then List.◌∷◌ "" rest else add_char c rest

abbrev splitter : Scanner
splitter = record { lines = λ size limit s. split s; err = λ size limit s. none }

split-line :
    (line rest : String)
    → contains_any line "\n" ≡ false
    → split (append line (append "\n" rest)) ≡ List.◌∷◌ line (split rest)
unfolding contains_any has_char
split-line [] rest h =
    rw (nil-append (append "\n" rest), cons-append (char 10 tt) "" rest, nil-append rest) refl
split-line (c ∷ line) rest h =
    let later = split-line line rest (ground arith) in
    let other : (code c == 10) ≡ false = ground arith in
    rw (cons-append c line (append "\n" rest), other, later) refl

splitter-SplitsLines : SplitsLines splitter
splitter-SplitsLines = record {
  none_left = λ size limit. refl;
  at_end = λ size limit. refl;
  line = λ size limit text rest one. split-line text rest one.no_newline;
  line_err = λ size limit text rest one. refl;
}

abbrev texts : List String
texts = List.◌∷◌ "{}" (List.◌∷◌ "oops" (List.◌∷◌ "[1]" List.[]))

abbrev is_json : String → Bool
is_json s = not (str_eq s "oops")

abbrev pipe : StdioTransport String
pipe = record { lines = List.[]; scan_error = none; writer = ""; max_line = 9; is_closed = false }

-- The limit of one byte is below the buffer's capacity.
read_all-write_all_example :
    read_all is_json 3 (new_with_max_line splitter (write_all texts pipe).1.writer tt (pos 1))
    ≡ heard is_json texts ++ List.◌∷◌ (none, some end_of_input) List.[]
unfolding contains_any has_char ends_in_return
read_all-write_all_example =
    (read_all-write_all splitter is_json (pos 1) texts pipe tt splitter-SplitsLines refl refl (
      record { no_newline = refl; no_return = refl; fits = omega arith },
      (
        record { no_newline = refl; no_return = refl; fits = omega arith },
        (record { no_newline = refl; no_return = refl; fits = omega arith }, tt),
      ),
    )).1
