-- ===== src/Stdio/Lines.antt =====
-- pkg/wmp/stdio/stdio.go: what a transport reads from the lines that another has written.
use Prim.Native.Char.{code}
use Prim.Native.String.{[], ◌∷◌, ◌++◌ as append, len}
use text.Mathlib.TextLemmas.{nil-append, append_assoc, append-nil}
use go_wmp.Prelude.{
  ◌≡◌, refl, sym, ◌∙◌, ap, ℕ, zero, suc, ◌+◌, ◌<◌, ltb, length, arith, ◌++◌, Bool-cases, inl, inr,
  String, Bool, true, false, not, ◌&&◌, Option, none, some, List, All, filter, map, str_eq,
  if◌then◌else◌, ◌==◌,
}
use go_wmp.Discovery.{contains_any}
use go_wmp.Stdio.{
  default_max_line, positive_or, first_buffer, ℤ, new_with_max_line, scan_failure, Scanner,
  StdioTransport, ReadError, WriteError, end_of_input, next_line, read_message, write_message,
}

-- A carriage return before the newline belongs to the end of the line.
unfoldable pub ends_in_return : String → Bool
ends_in_return [] = false
ends_in_return (c ∷ s) = let rest = ends_in_return s in if str_eq s "" then code c == 13 else rest

-- A text that is one line, with room in a buffer of the size.
pub record IsOneLine (size : ℕ) (text : String) : Type 0 where
  pub no_newline : contains_any text "\n" ≡ false
  pub no_return : ends_in_return text ≡ false
  pub fits : len text + 1 < size

abbrev pub larger : ℕ → ℕ → ℕ
larger a b = if ltb a b then b else a

-- `bufio.Scanner` with its `ScanLines`, as they are documented: the text of each line without its end,
-- where a line has to be shorter than the larger of the limit and the buffer's capacity.
pub record SplitsLines (sc : Scanner) : Type 0 where
  pub none_left : (size limit : ℕ) → sc.lines size limit "" ≡ List.[]
  pub at_end : (size limit : ℕ) → sc.err size limit "" ≡ none
  pub line :
      (size limit : ℕ) (text rest : String)
      → IsOneLine (larger size limit) text
      → sc.lines size limit (append text (append "\n" rest))
        ≡ List.◌∷◌ text (sc.lines size limit rest)
  pub line_err :
      (size limit : ℕ) (text rest : String)
      → IsOneLine (larger size limit) text
      → sc.err size limit (append text (append "\n" rest)) ≡ sc.err size limit rest

-- A writer that appends to a buffer.
abbrev pub append_to : String → String → Option String × String
append_to bytes buffer = (none, append buffer bytes)

-- The errors of the writes, and what is in the buffer after them.
abbrev pub write_all :
    List String → StdioTransport String → List (Option WriteError) × StdioTransport String
write_all List.[] t = (List.[], t)
write_all (List.◌∷◌ text texts) t =
    let (e, t') = write_message append_to none text t in
    let (es, u) = write_all texts t' in (List.◌∷◌ e es, u)

-- `n` reads, one after the other.
abbrev pub read_all :
    {W : Type 0} → (String → Bool) → ℕ → StdioTransport W → List (Option String × Option ReadError)
read_all valid zero t = List.[]
read_all valid (suc n) t =
    let (r, t') = read_message valid none t in List.◌∷◌ r (read_all valid n t')

-- What a reader makes of the texts: a text that is not JSON is skipped.
abbrev pub heard : (String → Bool) → List String → List (Option String × Option ReadError)
heard valid texts = map (λ s. (some s, none)) (filter (λ s. not (str_eq s "") && valid s) texts)

abbrev at_end : Option String × Option ReadError
at_end = (none, some end_of_input)

abbrev lines_of : List String → String
lines_of List.[] = ""
lines_of (List.◌∷◌ text texts) = append text (append "\n" (lines_of texts))

module _ (sc : Scanner) (h : SplitsLines sc) (size limit : ℕ) where
  scanned :
      (texts : List String)
      → All (IsOneLine (larger size limit)) texts
      → (sc.lines size limit (lines_of texts) ≡ texts) × (sc.err size limit (lines_of texts) ≡ none)
  scanned List.[] fit = (h.none_left size limit, h.at_end size limit)
  scanned (List.◌∷◌ text texts) (one, fit) =
      let (lines, err) = scanned texts fit in
      (
        h.line size limit text (lines_of texts) one ∙ ap (List.◌∷◌ text) lines,
        h.line_err size limit text (lines_of texts) one ∙ err,
      )

abbrev wrote : String → StdioTransport String → StdioTransport String
wrote text t = record t { writer = append t.writer (append text "\n") }

write_message_appends :
    (text : String) (t : StdioTransport String)
    → t.is_closed ≡ false
    → write_message append_to none text t ≡ (none, wrote text t)
unfolding write_message
write_message_appends text t h = rw h refl

write_all-writer :
    (texts : List String) (t : StdioTransport String)
    → t.is_closed ≡ false
    → ((write_all texts t).0 ≡ map (λ s. none) texts)
      × ((write_all texts t).1.writer ≡ append t.writer (lines_of texts))
write_all-writer List.[] t h = (refl, sym (append-nil t.writer))
write_all-writer (List.◌∷◌ text texts) t h =
    let (errors, buffer) = write_all-writer texts (wrote text t) h in
    rw (write_message_appends text t h) (
      ap (List.◌∷◌ none) errors,
      buffer
          ∙ append_assoc t.writer (append text "\n") (lines_of texts)
          ∙ ap (append t.writer) (append_assoc text "\n" (lines_of texts)),
    )

module _ {W : Type 0} (valid : String → Bool) (t : StdioTransport W) (opened : t.is_closed ≡ false)
    (ends : t.scan_error ≡ none) where
  abbrev at : List String → StdioTransport W
  at lines = record t { lines = lines }

  read_message_keeps :
      (line : String) (lines : List String)
      → (not (str_eq line "") && valid line) ≡ true
      → read_message valid none (at (List.◌∷◌ line lines)) ≡ ((some line, none), at lines)
  unfolding read_message next_line
  read_message_keeps line lines kept = rw opened (ground arith)

  read_message_skips :
      (line : String) (lines : List String)
      → (not (str_eq line "") && valid line) ≡ false
      → read_message valid none (at (List.◌∷◌ line lines)) ≡ read_message valid none (at lines)
  unfolding read_message next_line
  read_message_skips line lines skipped = rw opened (ground arith)

  read_message_ends : read_message valid none (at List.[]) ≡ (at_end, at List.[])
  unfolding read_message next_line scan_failure
  read_message_ends = rw (opened, ends) refl

  read_all-heard :
      (lines : List String)
      → read_all valid (suc (length (heard valid lines))) (at lines)
        ≡ heard valid lines ++ List.◌∷◌ at_end List.[]
  read_all-heard List.[] = rw read_message_ends refl
  read_all-heard (List.◌∷◌ line lines) =
      let rest = read_all-heard lines in
      elim (Bool-cases (not (str_eq line "") && valid line)) [
        | inl kept ↦
            rw (kept, read_message_keeps line lines kept) (ap (List.◌∷◌ (some line, none)) rest)
        | inr skipped ↦ rw (skipped, read_message_skips line lines skipped) rest
      ]

-- Texts that are one line each, shorter than the larger of 64 KiB and the reader's limit, are written to
-- an open transport without an error, one after the other. A reader with this limit, over a scanner
-- that splits lines, then returns those that are not empty and are JSON, in order, and after them the
-- end of the input.
pub read_all-write_all :
    {W : Type 0} (sc : Scanner) (valid : String → Bool) (limit : ℤ) (texts : List String)
    (t : StdioTransport String) (writer : W)
    → SplitsLines sc
    → t.is_closed ≡ false
    → t.writer ≡ ""
    → All (IsOneLine (larger first_buffer (positive_or limit default_max_line))) texts
    → let r = write_all texts t in
      (r.0 ≡ map (λ s. none) texts)
      × (read_all valid
            (suc (length (heard valid texts)))
            (new_with_max_line sc r.1.writer writer limit)
          ≡ heard valid texts ++ List.◌∷◌ at_end List.[])
unfolding new_with_max_line
read_all-write_all {W = W} sc valid limit texts t writer h opened empty fit =
    let max_line = positive_or limit default_max_line in
    let (errors, buffer) = write_all-writer texts t opened in
    let filled : (write_all texts t).1.writer ≡ lines_of texts =
      buffer ∙ ap (λ s. append s (lines_of texts)) empty ∙ nil-append (lines_of texts) in
    let (lines, err) = scanned sc h first_buffer max_line texts fit in
    let fresh : StdioTransport W = record {
      lines = texts;
      scan_error = none;
      writer = writer;
      max_line = max_line;
      is_closed = false;
    } in
    (errors, rw (filled, lines, err) (read_all-heard valid fresh refl refl texts))
