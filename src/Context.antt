-- ===== src/Context.antt =====
-- pkg/wmp/context.go: the values that a peer attaches to the context of a request. Only these three
-- keys are modelled; `none` is a key that is not attached.
use go_wmp.Prelude.{String, Option, none, some}
use go_wmp.Session.{Session}

pub record Context : Type 0 where
  pub session : Option Session
  pub sender : Option String
  pub request_id : Option String

abbrev pub or_empty : Option String → String
or_empty none = ""
or_empty (some s) = s

unfoldable pub context_with_session : Context → Session → Context
context_with_session ctx s = record ctx { session = some s }

unfoldable pub session_from_context : Context → Option Session
session_from_context ctx = ctx.session

unfoldable pub context_with_sender : Context → String → Context
context_with_sender ctx s = record ctx { sender = some s }

unfoldable pub sender_from_context : Context → String
sender_from_context ctx = or_empty ctx.sender

unfoldable pub context_with_request_id : Context → String → Context
context_with_request_id ctx id = record ctx { request_id = some id }

unfoldable pub request_id_from_context : Context → String
request_id_from_context ctx = or_empty ctx.request_id
