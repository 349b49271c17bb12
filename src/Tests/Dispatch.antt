-- ===== src/Tests/Dispatch.antt =====
-- Requests that the server answers, and those that it does not.
use golang_jsonrpc.Prelude.{
  ℕ, ◌≡◌, ◌↔◌, ◌⊎◌, inl, inr, refl, Bool, true, false, List, [], ◌∷◌, Option, none, some, Bytes,
  codes, bytes_Eq, int_Eq, ℤ, pos, All,
}
use golang_jsonrpc.Prelude.Maps.{lookup}
use golang_jsonrpc.Rpc.Types.{
  returned, Response, message, wrap, rpc_error, as_rpc_error, is_empty, internal_error_code,
}
use golang_jsonrpc.Rpc.Config.{Config, new}
use golang_jsonrpc.Rpc.Config.Consistent.{apply_all, apply}
use golang_jsonrpc.Rpc.Errors.{new_response, new_error, error_response, message_or_empty}
use golang_jsonrpc.Rpc.Errors.Exposure.{error_response_private, error_response_authoritative}
use golang_jsonrpc.Rpc.Call.{call}
use golang_jsonrpc.Rpc.Call.Replies.{IsReply}
use golang_jsonrpc.Rpc.Dispatch.{validate_request, handle_rpc, dispatch, timeout_of}
use golang_jsonrpc.Rpc.Dispatch.Replies.{answered_id, handle_rpc_silent, handle_rpc-IsReply}
use golang_jsonrpc.Rpc.Dispatch.Observed.{handle_rpc-Observed, Observed}
use golang_jsonrpc.Rpc.Entries.{decoded, parse_failed, handle_batch_rpc}
use golang_jsonrpc.Rpc.Entries.Silent.{IsNotification, handle_batch_rpc_silent}
use golang_jsonrpc.Tests.Fixtures.{server, server-IsConsistent, world, request, notification}

abbrev pong : Response
pong = record {
  version = codes "2.0";
  result = some (some (codes "[1]"));
  error = none;
  id = some (codes "1");
}

handle_rpc-IsReply_example :
    IsReply server (answered_id server (validate_request request) request.id) pong
unfolding handle_rpc validate_request dispatch call apply_all apply new timeout_of lookup
    golang_jsonrpc.Json.Scanner.valid golang_jsonrpc.Rpc.Config.set_max_message_size
    golang_jsonrpc.Rpc.Config.update golang_jsonrpc.Rpc.Config.set_max_batch_size
    golang_jsonrpc.Rpc.Config.register_method_with golang_jsonrpc.Rpc.Config.install
    golang_jsonrpc.Rpc.Config.compose golang_jsonrpc.Prelude.Maps.insert new_response
handle_rpc-IsReply_example = handle_rpc-IsReply server world 0 request server-IsConsistent refl

handle_rpc_silent_example :
    ((handle_rpc world server 0 notification).0 ≡ none)
    ↔ ((validate_request notification ≡ none) × (is_empty notification.id ≡ true))
handle_rpc_silent_example = handle_rpc_silent server world 0 notification

handle_batch_rpc_silent_example :
    ((handle_batch_rpc world server 0 (decoded notification ∷ parse_failed ∷ [])).0 ≡ [])
    ↔ All IsNotification (decoded notification ∷ parse_failed ∷ [])
handle_batch_rpc_silent_example =
    handle_batch_rpc_silent world server 0 (decoded notification ∷ parse_failed ∷ [])

abbrev watched : Config ℕ
watched = record server { observe = some (λ ctx info. returned tt) }

handle_rpc-Observed_example : Observed world watched 0 notification
handle_rpc-Observed_example = handle_rpc-Observed world watched 0 notification

error_response_private_example :
    (error_response server
      (some (wrap (codes "dsn") (message (codes "secret"))))
      internal_error_code
      none).0
    ≡ (error_response server (some (message (codes "other"))) internal_error_code none).0
unfolding as_rpc_error
error_response_private_example =
    error_response_private server (wrap (codes "dsn") (message (codes "secret")))
      (message (codes "other")) internal_error_code none refl

error_response_authoritative_example :
    (error_response server
      (some (wrap (codes "dsn") (rpc_error (pos 5) none)))
      internal_error_code
      none).0
    ≡ (elim (lookup (pos 5) server.errors) [
      | some msg ↦ new_error msg (pos 5) none none
      | none ↦
          new_error
            (message_or_empty (lookup internal_error_code server.errors))
            internal_error_code
            none
            none
    ])
unfolding as_rpc_error
error_response_authoritative_example =
    error_response_authoritative server (wrap (codes "dsn") (rpc_error (pos 5) none))
      internal_error_code (pos 5) none none refl
