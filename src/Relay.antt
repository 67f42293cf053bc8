-- ===== src/Relay.antt =====
-- pkg/wmp/relay/relay.go: the rendezvous relay. Each method holds the relay's lock and reads the
-- clock once, so it is one step with `now` as an argument; times and durations are nanoseconds and
-- do not wrap. `OnForward` is left out: no method calls it.
pub mod Queues
pub mod Mailbox
pub mod Registrations
mod Examples
use go_wmp.Prelude.{
  ℕ, ◌+◌, ◌/◌, String, Bool, true, false, not, Option, none, some, List, [], ◌∷◌, ◌++◌, str_eq, ltb,
  leb, length, filter, if◌then◌else◌,
}
use go_wmp.Prelude.Int.{ℤ, pos, positive_or}
use go_wmp.Prelude.Maps.{Map, lookup, insert, erase, retain}
use go_wmp.Errors.{err_method_not_found, err_invalid_params}
use go_wmp.Types.Json.{Raw, Time}
use go_wmp.Types.Message.{RelayRegisterParams, RelayRegisterResult}
use go_wmp.Types.Envelope.{Metadata}
use go_wmp.Jsonrpc.{RpcError, new_rpc_error, unmarshal}

pub record Config : Type 0 where
  pub max_queue_size : ℤ
  pub message_ttl : ℤ
  pub registration_ttl : ℤ

-- The configuration once `defaults` has made its fields positive.
pub record Limits : Type 0 where
  pub max_queue_size : ℕ
  pub message_ttl : ℕ
  pub registration_ttl : ℕ

-- A thousand messages, a day, an hour.
unfoldable pub defaults : Config → Limits
defaults c = record {
  max_queue_size = positive_or c.max_queue_size 1000;
  message_ttl = positive_or c.message_ttl 86400000000000;
  registration_ttl = positive_or c.registration_ttl 3600000000000;
}

pub record QueuedMessage : Type 0 where
  pub body : String
  pub queued_at : Time
  pub expires_at : Time

pub record Registration : Type 0 where
  pub participant : String
  pub registered_at : Time
  pub expires_at : Time

pub record Relay : Type 0 where
  pub config : Limits
  pub registrations : Map Registration
  pub queues : Map (List QueuedMessage)

unfoldable pub new : Config → Relay
unfolding defaults
new c = record { config = defaults c; registrations = []; queues = [] }

pub data Registering : Type 0 where
  ok : RelayRegisterResult → Registering
  err : RpcError → Registering

abbrev pub method_relay_register : String
method_relay_register = "wmp.relay.register"

unfoldable pub methods : List String
methods = method_relay_register ∷ []

-- `wmp.Metadata{Version: wmp.Version}`
abbrev pub version_only : Metadata
version_only = record {
  version = "0.1";
  session_id = "";
  sender = "";
  timestamp = none;
  timestamp_token = "";
  expires_at = none;
  encrypted = false;
  epoch = none;
  signature = "";
  identity_assertions = [];
  relay_chain = [];
  trace_id = "";
  sender_delegate = none;
  deliver_after = none;
}

unfoldable pub register : Time → String → Relay → Relay
register now sender r = record r {
  registrations =
      insert sender
        (record {
          participant = sender;
          registered_at = now;
          expires_at = now + r.config.registration_ttl;
        })
        r.registrations;
}

-- `decode` is `json.Unmarshal` into `RelayRegisterParams`.
unfoldable pub handle_method :
    (String → Option RelayRegisterParams) → Time → String → Raw → Relay → Registering × Relay
unfolding register
handle_method decode now method params r =
    if not (str_eq method method_relay_register)
    then (err (new_rpc_error err_method_not_found (some "\"unknown relay method\"")), r)
    else elim (unmarshal decode params) [
      | none ↦ (err (new_rpc_error err_invalid_params none), r)
      | some p ↦
          if str_eq p.wmp.sender ""
          then (err (new_rpc_error err_invalid_params (some "\"sender required\"")), r)
          else (
            ok (record {
              wmp = version_only;
              registered = true;
              ttl = pos (r.config.registration_ttl / 1000000000);
            }),
            register now p.wmp.sender r,
          )
    ]

unfoldable pub is_registered : Time → String → Relay → Bool
is_registered now participant r = elim (lookup participant r.registrations) [
  | none ↦ false
  | some reg ↦ ltb now reg.expires_at
]

-- `r.queues[participant]`, nil where it is missing
unfoldable pub queue_of : String → Map (List QueuedMessage) → List QueuedMessage
queue_of participant queues = elim (lookup participant queues) [ none ↦ [] | some q ↦ q ]

abbrev pub is_live : Time → QueuedMessage → Bool
is_live now m = ltb now m.expires_at

-- `true` is success, `false` is `ErrQueueFull`.
unfoldable pub enqueue : Time → String → String → Relay → Bool × Relay
unfolding queue_of
enqueue now participant body r =
    let queue = filter (is_live now) (queue_of participant r.queues) in
    if leb r.config.max_queue_size (length queue)
    then (false, record r { queues = insert participant queue r.queues })
    else (
      true,
      record r {
        queues =
            insert participant
              (queue
                ++ record { body = body; queued_at = now; expires_at = now + r.config.message_ttl }
                  ∷ [])
              r.queues;
      },
    )

drained : Time → String → Relay → List QueuedMessage → List QueuedMessage × Relay
drained now participant r [] = ([], r)
drained now participant r (m ∷ queue) =
    (filter (is_live now) (m ∷ queue), record r { queues = erase participant r.queues })

unfoldable pub drain : Time → String → Relay → List QueuedMessage × Relay
unfolding drained queue_of
drain now participant r = drained now participant r (queue_of participant r.queues)

unfoldable pub queue_length : String → Relay → ℕ
unfolding queue_of
queue_length participant r = length (queue_of participant r.queues)

unfoldable pub unregister : String → Relay → Relay
unregister participant r = record r { registrations = erase participant r.registrations }

-- The second loop of `PurgeExpired`.
unfoldable pub purge_queues : Time → Map (List QueuedMessage) → Map (List QueuedMessage)
purge_queues now [] = []
purge_queues now ((id, queue) ∷ m) =
    let rest = purge_queues now m in
    elim (filter (is_live now) queue) [ [] ↦ rest | x ∷ xs ↦ (id, x ∷ xs) ∷ rest ]

unfoldable pub purge_expired : Time → Relay → Relay
unfolding purge_queues
purge_expired now r = record r {
  registrations = retain (λ reg. not (ltb reg.expires_at now)) r.registrations;
  queues = purge_queues now r.queues;
}
