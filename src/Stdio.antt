-- ===== src/Stdio.antt =====
-- pkg/wmp/stdio/stdio.go: messages as lines. A `bufio.Scanner` over a reader is the record `Scanner`: the
-- lines that its calls of Scan yield for the whole input, and what Err says after them, given the
-- capacity of its buffer and its limit. The writer keeps a state of its own.
pub mod Lines
mod Examples
use Prim.Native.String.{◌++◌ as append}
use go_wmp.Prelude.{
  ℕ, String, Bool, true, false, not, Option, none, some, List, [], ◌∷◌, str_eq, if◌then◌else◌,
}
use go_wmp.Prelude.Int.{ℤ, pos, positive_or}

-- `bufio.ErrTooLong`, and any other error of the reader.
pub data ScanError : Type 0 where
  too_long : ScanError
  broken : String → ScanError

pub record Scanner : Type 0 where
  pub lines : ℕ → ℕ → String → List String
  pub err : ℕ → ℕ → String → Option ScanError

-- `io.EOF`, the error of the context, the limit that was exceeded, and the reader's error.
pub data ReadError : Type 0 where
  end_of_input : ReadError
  read_cancelled : String → ReadError
  exceeds : ℕ → ReadError
  reading : String → ReadError

-- `io.ErrClosedPipe`, the error of the context, and the writer's.
pub data WriteError : Type 0 where
  closed_pipe : WriteError
  write_cancelled writing : String → WriteError

-- `lines` and `scan_error` are the scanner: what it has still to yield.
pub record StdioTransport (W : Type 0) : Type 0 where
  pub lines : List String
  pub scan_error : Option ScanError
  pub writer : W
  pub max_line : ℕ
  pub is_closed : Bool

abbrev pub default_max_line : ℕ
default_max_line = 1048576

-- The scanner's first buffer: 64 KiB.
abbrev pub first_buffer : ℕ
first_buffer = 65536

unfoldable pub new_with_max_line : {W : Type 0} → Scanner → String → W → ℤ → StdioTransport W
new_with_max_line sc input writer limit =
    let max_line = positive_or limit default_max_line in
    record {
      lines = sc.lines first_buffer max_line input;
      scan_error = sc.err first_buffer max_line input;
      writer = writer;
      max_line = max_line;
      is_closed = false;
    }

unfoldable pub new : {W : Type 0} → Scanner → String → W → StdioTransport W
unfolding new_with_max_line
new sc input writer = new_with_max_line sc input writer (pos default_max_line)

-- The loop: the first line that is JSON, and the lines behind it.
unfoldable pub next_line : (String → Bool) → List String → Option (String × List String)
next_line valid [] = none
next_line valid (line ∷ lines) =
    let rest = next_line valid lines in
    if str_eq line "" then rest else if not (valid line) then rest else some (line, lines)

unfoldable pub scan_failure : ℕ → Option ScanError → ReadError
scan_failure max_line none = end_of_input
scan_failure max_line (some too_long) = exceeds max_line
scan_failure max_line (some (broken e)) = reading e

-- `done` is the error of the context, once it is done.
unfoldable pub read_message :
    {W : Type 0}
    → (String → Bool)
    → Option String
    → StdioTransport W
    → (Option String × Option ReadError) × StdioTransport W
unfolding next_line scan_failure
read_message valid done t = if t.is_closed then ((none, some end_of_input), t) else elim done [
  | some e ↦ ((none, some (read_cancelled e)), t)
  | none ↦ elim (next_line valid t.lines) [
    | some (line, lines) ↦ ((some line, none), record t { lines = lines })
    | none ↦ ((none, some (scan_failure t.max_line t.scan_error)), record t { lines = [] })
  ]
]

unfoldable pub written : Option String → Option WriteError
written none = none
written (some e) = some (writing e)

unfoldable pub write_message :
    {W : Type 0}
    → (String → W → Option String × W)
    → Option String
    → String
    → StdioTransport W
    → Option WriteError × StdioTransport W
unfolding written
write_message write done bytes t = if t.is_closed then (some closed_pipe, t) else elim done [
  | some e ↦ (some (write_cancelled e), t)
  | none ↦
      let (failure, writer) = write (append bytes "\n") t.writer in
      (written failure, record t { writer = writer })
]

unfoldable pub close : {W : Type 0} → StdioTransport W → StdioTransport W
close t = record t { is_closed = true }
