-- ===== src/Channel.antt =====
-- pkg/wmp/channel_transport.go: the transport over two channels. A select with several ready cases takes
-- any of them, and other goroutines run between the calls, so that the calls are steps of a relation.
pub mod Order
mod Examples
use go_wmp.Prelude.{ℕ, ◌+◌, ◌≤◌, ◌<◌, ◌≡◌, String, Bool, true, false, List, [], ◌∷◌, ◌++◌, length}

pub record ChannelTransport : Type 0 where
  pub incoming : List String
  pub outgoing : List String
  pub in_size : ℕ
  pub out_size : ℕ
  pub is_closed : Bool

-- `make` panics at a negative size.
unfoldable pub new_channel_transport : ℕ → ℕ → ChannelTransport
new_channel_transport in_size out_size = record {
  incoming = [];
  outgoing = [];
  in_size = in_size;
  out_size = out_size;
  is_closed = false;
}

-- A call with its outcome. A message that is handed over goes to a receiver that was waiting at the
-- empty channel.
pub data Action : Type 0 where
  pushes hands_in reads writes hands_out takes : String → Action
  push_fails write_fails : String → Action
  read_fails closes : Action

-- `takes` is a receive from `Out()`.
pub data Step : ChannelTransport → Action → ChannelTransport → Type 0 where
  push_sent :
      (t : ChannelTransport) (bytes : String)
      → length t.incoming < t.in_size
      → Step t (pushes bytes) (record t { incoming = t.incoming ++ bytes ∷ [] })
  push_handed :
      (t : ChannelTransport) (bytes : String) → t.incoming ≡ [] → Step t (hands_in bytes) t
  push_closed :
      (t : ChannelTransport) (bytes : String) → t.is_closed ≡ true → Step t (push_fails bytes) t
  push_full :
      (t : ChannelTransport) (bytes : String)
      → t.is_closed ≡ false
      → t.in_size ≤ length t.incoming
      → Step t (push_fails bytes) t
  read_cancelled : (t : ChannelTransport) → Step t read_fails t
  read_closed : (t : ChannelTransport) → t.is_closed ≡ true → Step t read_fails t
  read_received :
      (t : ChannelTransport) (bytes : String) (rest : List String)
      → t.incoming ≡ bytes ∷ rest
      → Step t (reads bytes) (record t { incoming = rest })
  write_sent :
      (t : ChannelTransport) (bytes : String)
      → length t.outgoing < t.out_size
      → Step t (writes bytes) (record t { outgoing = t.outgoing ++ bytes ∷ [] })
  write_handed :
      (t : ChannelTransport) (bytes : String) → t.outgoing ≡ [] → Step t (hands_out bytes) t
  write_closed :
      (t : ChannelTransport) (bytes : String) → t.is_closed ≡ true → Step t (write_fails bytes) t
  write_full :
      (t : ChannelTransport) (bytes : String)
      → t.is_closed ≡ false
      → t.out_size ≤ length t.outgoing
      → Step t (write_fails bytes) t
  out_taken :
      (t : ChannelTransport) (bytes : String) (rest : List String)
      → t.outgoing ≡ bytes ∷ rest
      → Step t (takes bytes) (record t { outgoing = rest })
  close : (t : ChannelTransport) → Step t closes (record t { is_closed = true })

-- The states that a history leads to; its last action stands first.
pub data Reach (s : ChannelTransport) : List Action → ChannelTransport → Type 0 where
  here : Reach s [] s
  next :
      {past : List Action} {a : Action} {t u : ChannelTransport}
      → Reach s past t
      → Step t a u
      → Reach s (a ∷ past) u
