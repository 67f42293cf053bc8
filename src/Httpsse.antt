-- ===== src/Httpsse.antt =====
-- pkg/wmp/httpsse/httpsse.go: the server's sessions with their replay buffers, and the client's state.
-- net/http, bufio and the network stay outside: a request is the values that the handlers read from
-- it, and a stream of events is the list of the lines that the reader returns before its error. The
-- mutexes make each locked part one step; a channel is the list of what is in it.
pub mod Lines
pub mod Buffer
pub mod Replay
pub mod Stream
pub mod Reconnect
pub mod Posts
mod Examples
use Prim.Native.String.{◌++◌ as append, len, slice}
use text.Mathlib.Text.{starts_with}
use go_wmp.Prelude.{
  ℕ, ◌+◌, ◌-◌, ◌%◌, String, Bool, true, false, not, Option, none, some, List, [], ◌∷◌, ◌++◌, str_eq,
  if◌then◌else◌, ltb, length, drop, ◌==◌,
}
use go_wmp.Prelude.Int.{ℤ, pos, positive_or}
use go_wmp.Prelude.Maps.{Map, lookup, insert}
use go_wmp.Peer.Calls.{set}
use go_wmp.Httpsse.Lines.{read_lines}

pub record ServerEvent : Type 0 where
  pub id : String
  pub bytes : String

-- `nextID` is an int64, here by its 64 bits.
pub record ServerSession : Type 0 where
  pub incoming : List String
  pub outgoing : List String
  pub events : List ServerEvent
  pub next_id : ℕ
  pub max_events : ℕ

unfoldable pub new_server_session : ℤ → ServerSession
new_server_session max_events = record {
  incoming = [];
  outgoing = [];
  events = [];
  next_id = 0;
  max_events = positive_or max_events 200;
}

abbrev pub two_to_64 : ℕ
two_to_64 = 18446744073709551616

-- `event_id` is `fmt.Sprintf("evt-%d", n)`.
unfoldable pub buffer_event : (ℕ → String) → String → ServerSession → String × ServerSession
buffer_event event_id bytes s =
    let n = (s.next_id + 1) % two_to_64 in
    let events = s.events ++ record { id = event_id n; bytes = bytes } ∷ [] in
    (
      event_id n,
      record s {
        next_id = n;
        events =
            if ltb s.max_events (length events)
            then drop (length events - s.max_events) events
            else events;
      },
    )

-- The loop: the last event leaves nothing to replay, and the search goes on.
unfoldable pub events_after : String → List ServerEvent → List ServerEvent
events_after last_event_id [] = []
events_after last_event_id (e ∷ es) =
    let rest = events_after last_event_id es in
    if str_eq e.id last_event_id then (if ltb 0 (length es) then es else rest) else rest

unfoldable pub replay_after : String → ServerSession → List ServerEvent
unfolding events_after
replay_after last_event_id s =
    if str_eq last_event_id "" then [] else events_after last_event_id s.events

-- `fmt.Fprintf(w, "id: %s\nevent: wmp\ndata: %s\n\n", ev.ID, ev.Data)`: the id and the bytes are printed as
-- they are.
abbrev pub event_text : ServerEvent → String
event_text e = append (append "id: " e.id) (
    append "\n"
      (append "event: wmp" (append "\n" (append (append "data: " e.bytes) (append "\n" "\n")))))

-- The lines that a reader of a printed event gets.
unfoldable pub event_lines : ServerEvent → List String
unfolding read_lines
event_lines e = read_lines (event_text e)

-- What `readSSE` keeps: its own current id, the transport's last event id, and the channel.
pub record Client : Type 0 where
  pub current_id : String
  pub last_event_id : String
  pub incoming : List String

-- `strings.TrimPrefix`
abbrev pub trim_prefix : String → String → String
trim_prefix line prefix =
    if starts_with line prefix then slice line (len prefix) (len line) else line

-- One round of `readSSE`, on a line that `strings.TrimSpace` has trimmed.
unfoldable pub read_line : String → Client → Client
read_line line client =
    if starts_with line "id: "
    then record client { current_id = trim_prefix line "id: " }
    else if starts_with line "data: "
    then (if not (str_eq client.current_id "")
        then record {
          current_id = "";
          last_event_id = client.current_id;
          incoming = client.incoming ++ trim_prefix line "data: " ∷ [];
        }
        else record client { incoming = client.incoming ++ trim_prefix line "data: " ∷ [] })
    else client

-- `readSSE`, up to the error of the reader; `trim_space` is `strings.TrimSpace`.
unfoldable pub read_sse : (String → String) → List String → Client → Client
unfolding read_line
read_sse trim_space [] client = client
read_sse trim_space (line ∷ lines) client =
    read_sse trim_space lines (read_line (trim_space line) client)

-- `ServerHandler`: the table of sessions holds pointers into a store.
pub record ServerHandler : Type 0 where
  pub sessions : Map ℕ
  pub store : ℕ → ServerSession
  pub next : ℕ

unfoldable pub new_server_handler : ServerHandler
new_server_handler = record { sessions = []; store = λ n. new_server_session (pos 200); next = 0 }

-- `sess = newServerSession(200); h.sessions[sessionID] = sess`
unfoldable pub add_session : String → ServerHandler → ℕ × ServerHandler
add_session session_id h = (
  h.next,
  record {
    sessions = insert session_id h.next h.sessions;
    store = set h.next (new_server_session (pos 200)) h.store;
    next = h.next + 1;
  },
)

-- `Transport`: the session that the transport is for.
unfoldable pub transport : String → ServerHandler → ℕ × ServerHandler
transport session_id h = elim (lookup session_id h.sessions) [
  | some n ↦ (n, h)
  | none ↦ add_session session_id h
]

-- `handlePost`, before the lookup: the header, or else the session id of the envelope.
unfoldable pub session_id_of : String → String → String
session_id_of header envelope = if not (str_eq header "") then header else envelope

-- A send on a channel, which blocks while it is full.
abbrev pub send : String → List String → Option (List String)
send bytes channel = if ltb (length channel) 64 then some (channel ++ bytes ∷ []) else none

-- `sess.incoming <- body`; `none` is a send that waits.
unfoldable pub push_incoming : String → ℕ → ServerHandler → Option ServerHandler
push_incoming body n h = elim (send body (h.store n).incoming) [
  | none ↦ none
  | some channel ↦
      some (record h { store = set n (record (h.store n) { incoming = channel }) h.store })
]

-- `handlePost` after its lookup, which is a step of its own: it answered `seen`. The session, if the
-- message could be pushed; the table may have changed in between.
unfoldable pub post_after : Option ℕ → String → String → ServerHandler → ℕ × Option ServerHandler
unfolding add_session
post_after (some n) session_id body h = (n, push_incoming body n h)
post_after none session_id body h =
    let (n, h') = add_session session_id h in (n, push_incoming body n h')

-- `handlePost` up to the push, when no other request runs in between.
unfoldable pub post : String → String → ServerHandler → ℕ × Option ServerHandler
unfolding post_after
post session_id body h = post_after (lookup session_id h.sessions) session_id body h

-- `ServerTransport.WriteMessage`
unfoldable pub write_message : String → ℕ → ServerHandler → Option ServerHandler
write_message bytes n h = elim (send bytes (h.store n).outgoing) [
  | none ↦ none
  | some channel ↦
      some (record h { store = set n (record (h.store n) { outgoing = channel }) h.store })
]

-- A receive from a session's incoming channel, as in `ServerTransport.ReadMessage`.
unfoldable pub read_message : ℕ → ServerHandler → Option (String × ServerHandler)
read_message n h = elim (h.store n).incoming [
  | [] ↦ none
  | bytes ∷ rest ↦
      some (bytes, record h { store = set n (record (h.store n) { incoming = rest }) h.store })
]

-- A receive from its outgoing channel: the answer of `handlePost`.
unfoldable pub take_outgoing : ℕ → ServerHandler → Option (String × ServerHandler)
take_outgoing n h = elim (h.store n).outgoing [
  | [] ↦ none
  | bytes ∷ rest ↦
      some (bytes, record h { store = set n (record (h.store n) { outgoing = rest }) h.store })
]

-- A round of the loop of `handleSSE`: the event that is printed.
unfoldable pub serve_event : (ℕ → String) → ℕ → ServerHandler → Option (List String × ServerHandler)
unfolding take_outgoing event_lines buffer_event
serve_event event_id n h = elim (take_outgoing n h) [
  | none ↦ none
  | some (bytes, h') ↦
      let r = buffer_event event_id bytes (h'.store n) in
      some
        (event_lines (record { id = r.0; bytes = bytes }), record h' { store = set n r.1 h'.store })
]

-- The part of `handleSSE` before that loop: a status that is not OK, or the lines of the replay.
unfoldable pub open_stream : String → String → Bool → ServerHandler → ℕ × List ServerEvent
unfolding replay_after
open_stream session_id last_event_id is_flusher h =
    if str_eq session_id "" then (400, []) else elim (lookup session_id h.sessions) [
      | none ↦ (404, [])
      | some n ↦ if not is_flusher then (500, []) else (
        200,
        if not (str_eq last_event_id "") then replay_after last_event_id (h.store n) else [],
      )
    ]
