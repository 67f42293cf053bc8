-- ===== src/Fixtures.antt =====
-- Sample data for the tests: a codec that knows a few texts, a handler that counts its calls, a peer
-- and its first state.
use Prim.Native.String
use go_wmp.Prelude.{ℕ, ◌+◌, String, true, false, none, some, [], ◌∷◌, str_eq, if◌then◌else◌}
use go_wmp.Prelude.Int.{pos}
use go_wmp.Prelude.Maps.{Map}
use go_wmp.Types.Json.{number, arr, nil, cons}
use go_wmp.Types.Session.{SecurityMode}
use go_wmp.Types.Flow.{
  FlowStartParams, FlowProgressParams, FlowCompleteParams, FlowErrorParams, FlowCancelParams,
}
use go_wmp.Jsonrpc.{Codec, Message, Token}
use go_wmp.Session.{Session}
use go_wmp.Context.{Context}
use go_wmp.Profile.{FlowHandler, Handler, Profile}
use go_wmp.Registry.{Registry}
use go_wmp.Relay.{version_only}
use go_wmp.Peer.{Peer, State, Structs}

abbrev pub ping : Message
ping = record {
  jsonrpc = "2.0";
  id = some "1";
  method = "app.ping";
  params = some "[1]";
  result = none;
  error = none;
}

abbrev pub pong : Message
pong = record {
  jsonrpc = "2.0";
  id = some "7";
  method = "";
  params = none;
  result = some "[1]";
  error = none;
}

abbrev pub news : Message
news = record {
  jsonrpc = "2.0";
  id = none;
  method = "app.news";
  params = some "[1]";
  result = none;
  error = none;
}

abbrev pub codec : Codec
codec = record {
  quote = λ s. Prim.Native.String.◌++◌ "\"" (Prim.Native.String.◌++◌ s "\"");
  unmarshal_string = λ s. none;
  unmarshal_value = λ s. if str_eq s "[1]" then some (arr (cons (number "1") nil)) else none;
  read_message = λ s.
      if str_eq s "ping"
      then some (ping, "")
      else if str_eq s "pong"
      then some (pong, "")
      else if str_eq s "news"
      then some (news, "")
      else none;
  read_batch = λ s.
      if str_eq s "[ping,pong]"
      then some (some ping ∷ some pong ∷ [], "")
      else if str_eq s "[ping,null]"
      then some (some ping ∷ none ∷ [], "")
      else none;
  next_token = λ s. if str_eq s "" then Token.eof else Token.tok s;
}

abbrev pub security : SecurityMode
security = record {
  mode = "tls";
  min_tls_version = "1.3";
  cipher_suites = [];
  cipher_suite = none;
  mls_group_info = "";
  encrypted_capabilities = [];
}

abbrev pub session_at : String → ℕ → Session
session_at id expiry = record {
  id = id;
  participants = "alice" ∷ [];
  capabilities = [];
  security = security;
  metadata = none;
  resumption_token = "";
  created_at = 0;
  expires_at = expiry;
}

abbrev pub start : FlowStartParams
start = record {
  wmp = version_only;
  flow_type = "oid4vci";
  flow_id = "f1";
  params = none;
  timeout = pos 0;
}

abbrev pub progress : FlowProgressParams
progress = record { wmp = version_only; flow_id = "f1"; step = "half"; payload = none }

abbrev pub complete : FlowCompleteParams
complete = record { wmp = version_only; flow_id = "f1"; result = none }

abbrev pub broken : FlowErrorParams
broken = record {
  wmp = version_only;
  flow_id = "f1";
  code = pos 1;
  message = "";
  error_data = none;
}

abbrev pub cancel : FlowCancelParams
cancel = record { wmp = version_only; flow_id = "f1"; reason = "" }

-- Decodes every text of a flow method to the sample message, and no other method.
abbrev pub structs : Structs
structs = record {
  session_create = λ s. none;
  session_resume = λ s. none;
  session_close = λ s. none;
  session_authenticate = λ s. none;
  message_deliver = λ s. none;
  message_ack = λ s. none;
  message_status = λ s. none;
  message_poll = λ s. none;
  capability_update = λ s. none;
  capability_list = λ s. none;
  flow_start = λ s. some start;
  flow_progress = λ s. some progress;
  flow_action = λ s. none;
  flow_complete = λ s. some complete;
  flow_error = λ s. some broken;
  flow_cancel = λ s. some cancel;
  resolve = λ s. none;
  credential_notification = λ s. none;
  envelope = λ s. some version_only;
  marshal_reply = λ r. some "{}";
  marshal_response = λ r. some "{}";
}

-- A flow handler that starts every flow.
abbrev pub starter : FlowHandler ℕ
starter = record {
  flow_types = "oid4vci" ∷ [];
  start_flow = λ ctx ps w. (
    (some (record { wmp = version_only; flow_id = ps.flow_id; flow_type = ps.flow_type }), none),
    w + 1,
  );
  handle_action = λ ctx ps w. ((none, none), w + 1);
  handle_progress = λ ctx ps w. w + 100;
  handle_complete = λ ctx ps w. w + 1000;
  handle_error = λ ctx ps w. w + 1;
}

abbrev pub profile : Profile ℕ
profile = record {
  name = "issuance";
  capabilities = [];
  init = λ w. (none, w);
  flow_handler = some starter;
  method_handler = none;
  resolve_handler = none;
  session_hook = none;
  identifier_resolver = none;
}

abbrev pub handler : Handler ℕ
handler = record {
  session_create = λ ctx ps w. ((none, none), w + 1);
  session_resume = λ ctx ps w. ((none, none), w + 1);
  session_close = λ ctx ps w. w + 1;
  session_authenticate = λ ctx ps w. ((none, none), w + 1);
  message_deliver = λ ctx ps w. w + 1;
  message_ack = λ ctx ps w. w + 1;
  message_poll = λ ctx ps w. ((none, none), w + 1);
  message_status = λ ctx ps w. w + 1;
  capability_update = λ ctx ps w. ((none, none), w + 1);
  capability_list = λ ctx ps w. ((none, none), w + 1);
  flow_start = λ ctx ps w. ((none, none), w + 1);
  flow_progress = λ ctx ps w. w + 1;
  flow_action = λ ctx ps w. ((none, none), w + 1);
  flow_complete = λ ctx ps w. w + 1;
  flow_error = λ ctx ps w. w + 1;
  flow_cancel = λ ctx ps w. ((none, none), w + 1);
  resolve = λ ctx ps w. ((none, none), w + 1);
  credential_notification = none;
}

abbrev pub context : Context
context = record { session = none; sender = none; request_id = none }

abbrev pub registry : Registry ℕ
registry = record {
  profiles = profile ∷ [];
  flow_handlers = ("oid4vci", starter) ∷ [];
  methods = [];
  resolvers = [];
  id_resolvers = [];
  session_hooks = [];
  flow_owners = [];
}

abbrev pub state : State ℕ (Map Session)
state = record { registry = registry; sessions = some []; world = 0 }

-- A peer that denies the method "app.news".
abbrev pub peer : Peer ℕ (Map Session)
peer = record {
  handler = handler;
  middleware = [];
  max_message_size = pos 1000;
  validator = none;
  authorizer = some (λ ctx method params. if str_eq method "app.news" then false else true);
}
