-- ===== src/Profile/Base.antt =====
-- pkg/wmp/handler.go, `BaseHandler`: the handler to embed, whose methods know no request and ignore
-- every notification.
use go_wmp.Prelude.{none, some}
use go_wmp.Errors.{err_method_not_found}
use go_wmp.Jsonrpc.{new_rpc_error}
use go_wmp.Profile.{rpc, Returned, Handler}

-- `return nil, NewRPCError(ErrMethodNotFound, nil)`
abbrev pub not_found : {A : Type 0} → Returned A
not_found = (none, some (rpc (new_rpc_error err_method_not_found none)))

unfoldable pub base_handler : {W : Type 0} → Handler W
base_handler = record {
  session_create = λ ctx ps w. (not_found, w);
  session_resume = λ ctx ps w. (not_found, w);
  session_close = λ ctx ps w. w;
  session_authenticate = λ ctx ps w. (not_found, w);
  message_deliver = λ ctx ps w. w;
  message_ack = λ ctx ps w. w;
  message_poll = λ ctx ps w. (not_found, w);
  message_status = λ ctx ps w. w;
  capability_update = λ ctx ps w. (not_found, w);
  capability_list = λ ctx ps w. (not_found, w);
  flow_start = λ ctx ps w. (not_found, w);
  flow_progress = λ ctx ps w. w;
  flow_action = λ ctx ps w. (not_found, w);
  flow_complete = λ ctx ps w. w;
  flow_error = λ ctx ps w. w;
  flow_cancel = λ ctx ps w. (not_found, w);
  resolve = λ ctx ps w. (not_found, w);
  credential_notification = some (λ ctx ps w. w);
}
