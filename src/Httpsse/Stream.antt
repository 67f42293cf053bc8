-- ===== src/Httpsse/Stream.antt =====
-- pkg/wmp/httpsse/httpsse.go: what `readSSE` makes of the events that `handleSSE` prints.
use Prim.Native.String.{◌++◌ as append, [], slice}
use text.Mathlib.Text.{starts_with}
use text.Mathlib.TextLemmas.{append_assoc as text_assoc}
use text.Mathlib.TextPositions.{
  starts_with-append, slice-append_left, slice-append_right, len-append,
}
use mathlib.Core.List.{append-nil, append_assoc}
use go_wmp.Prelude.{◌≡◌, refl, ◌∙◌, sym, ap, String, false, List, [], ◌∷◌, ◌++◌, str_eq, All, subst}
use go_wmp.Discovery.{contains_any, has_char}
use go_wmp.Httpsse.Lines.{read_lines, read_lines-line}
use go_wmp.Httpsse.{ServerEvent, Client, trim_prefix, read_line, read_sse, event_lines}

-- A line has no line break inside, and TrimSpace takes the one behind it off and nothing else.
abbrev pub IsLine : (String → String) → String → Type 0
IsLine trim_space line = (contains_any line "\n" ≡ false) × (trim_space (append line "\n") ≡ line)

-- An event whose printed lines the reader gets back: no line break inside, no outer space.
abbrev pub IsPrintable : (String → String) → ServerEvent → Type 0
IsPrintable trim_space e =
    IsLine trim_space (append "id: " e.id)
    × IsLine trim_space (append "data: " e.bytes)
    × (str_eq e.id "" ≡ false)

trim_prefix-append : (prefix text : String) → trim_prefix (append prefix text) prefix ≡ text
trim_prefix-append prefix text =
    rw (starts_with-append prefix text, len-append prefix text) (slice-append_right prefix text)

data_is_no_id : (text : String) → starts_with (append "data: " text) "id: " ≡ false
data_is_no_id text =
    let begins : slice (append "data: " text) 0 4 ≡ "data" =
      subst (λ s. slice s 0 4 ≡ "data") (sym (text_assoc "data" ": " text))
        (slice-append_left "data" (append ": " text)) in
    rw begins refl

read_id :
    (id : String) (client : Client)
    → read_line (append "id: " id) client ≡ record client { current_id = id }
unfolding read_line
read_id id client =
    rw (starts_with-append "id: " id, len-append "id: " id)
      (ap (λ x. record client { current_id = x }) (slice-append_right "id: " id))

read_data :
    (text : String) (client : Client)
    → str_eq client.current_id "" ≡ false
    → read_line (append "data: " text) client ≡ record {
      current_id = "";
      last_event_id = client.current_id;
      incoming = client.incoming ++ text ∷ [];
    }
unfolding read_line
read_data text client named =
    rw (data_is_no_id text, starts_with-append "data: " text, len-append "data: " text, named)
      (ap
        (λ x. record {
          current_id = "";
          last_event_id = client.current_id;
          incoming = client.incoming ++ x ∷ [];
        })
        (slice-append_right "data: " text))

-- An event without line breaks is printed as four lines.
event_lines-four :
    (e : ServerEvent)
    → contains_any (append "id: " e.id) "\n" ≡ false
    → contains_any (append "data: " e.bytes) "\n" ≡ false
    → event_lines e
      ≡ append (append "id: " e.id) "\n"
        ∷ "event: wmp\n"
        ∷ append (append "data: " e.bytes) "\n"
        ∷ "\n"
        ∷ []
unfolding event_lines read_lines contains_any has_char
event_lines-four e id_line data_line =
    read_lines-line (append "id: " e.id) _ id_line
    ∙ ap (λ l. append (append "id: " e.id) "\n" ∷ l)
        (read_lines-line "event: wmp" (append (append "data: " e.bytes) (append "\n" "\n")) refl
          ∙ ap (λ l. "event: wmp\n" ∷ l) (read_lines-line (append "data: " e.bytes) "\n" data_line))

-- The four lines of one event.
read_four :
    (trim_space : String → String) (e : ServerEvent) (rest : List String) (client : Client)
    → trim_space "event: wmp\n" ≡ "event: wmp"
    → trim_space "\n" ≡ ""
    → IsPrintable trim_space e
    → read_sse trim_space
        (append (append "id: " e.id) "\n"
          ∷ "event: wmp\n"
          ∷ append (append "data: " e.bytes) "\n"
          ∷ "\n"
          ∷ rest)
        client
      ≡ read_sse trim_space rest (record {
        current_id = "";
        last_event_id = e.id;
        incoming = client.incoming ++ e.bytes ∷ [];
      })
unfolding read_sse
read_four trim_space e rest client plain blank (id_line, data_line, named) =
    rw (id_line.1, plain, data_line.1, blank, read_id e.id client)
      (ap (read_sse trim_space rest)
        (read_data e.bytes (record client { current_id = e.id }) named))

read_event :
    (trim_space : String → String) (e : ServerEvent) (rest : List String) (client : Client)
    → trim_space "event: wmp\n" ≡ "event: wmp"
    → trim_space "\n" ≡ ""
    → IsPrintable trim_space e
    → read_sse trim_space (event_lines e ++ rest) client
      ≡ read_sse trim_space rest (record {
        current_id = "";
        last_event_id = e.id;
        incoming = client.incoming ++ e.bytes ∷ [];
      })
read_event trim_space e rest client plain blank printable =
    let (id_line, data_line, named) = printable in
    ap (λ l. read_sse trim_space (l ++ rest) client) (event_lines-four e id_line.0 data_line.0)
    ∙ read_four trim_space e rest client plain blank printable

-- The printed events, line by line, and the id and the texts that they carry.
abbrev pub stream_lines : List ServerEvent → List String
stream_lines [] = []
stream_lines (e ∷ es) = event_lines e ++ stream_lines es

abbrev pub last_id : String → List ServerEvent → String
last_id before [] = before
last_id before (e ∷ es) = last_id e.id es

abbrev pub texts : List ServerEvent → List String
texts [] = []
texts (e ∷ es) = e.bytes ∷ texts es

-- Where TrimSpace takes the line breaks off, a client that is between two events reads from the printed
-- events exactly their texts, in order, and ends with the id of the last one.
pub read_sse-stream_lines :
    (trim_space : String → String) (es : List ServerEvent) (client : Client)
    → trim_space "event: wmp\n" ≡ "event: wmp"
    → trim_space "\n" ≡ ""
    → All (IsPrintable trim_space) es
    → client.current_id ≡ ""
    → read_sse trim_space (stream_lines es) client ≡ record {
      current_id = "";
      last_event_id = last_id client.last_event_id es;
      incoming = client.incoming ++ texts es;
    }
unfolding read_sse
read_sse-stream_lines trim_space [] client plain blank printable between =
    rw (append-nil client.incoming) (ap (λ id. record client { current_id = id }) between)
read_sse-stream_lines trim_space (e ∷ es) client plain blank (one, printable) between =
    read_event trim_space e (stream_lines es) client plain blank one
    ∙ read_sse-stream_lines trim_space es _ plain blank printable refl
    ∙ ap (λ l. record { current_id = ""; last_event_id = last_id e.id es; incoming = l })
        (append_assoc client.incoming (e.bytes ∷ []) (texts es))
