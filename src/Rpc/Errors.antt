-- ===== src/Rpc/Errors.antt =====
-- error.go, response.go: error responses, and what of an error reaches the client.
pub mod Exposure
pub mod Logs
use golang_jsonrpc.Prelude.{
  ◌≡◌, refl, Bool, true, false, List, [], ◌∷◌, ◌++◌, Option, none, some, Bytes, int_eq, int_Eq, ℤ,
  if◌then◌else◌,
}
use golang_jsonrpc.Prelude.Maps.{lookup}
use golang_jsonrpc.Rpc.Types.{
  Any, RequestId, RawMessage, ErrorObject, Response, GoError, as_rpc_error, version_2_0,
  internal_error_code, request_time_limit, Level, debug, warn, error, Event, error_logged,
  unregistered_code, M,
}
use golang_jsonrpc.Rpc.Config.{Config}

-- `NewResponse`, for the ids that the dispatcher has: those of requests, and nil.
unfoldable pub new_response : RequestId → Option RawMessage → Option ErrorObject → Response
new_response id result err = record { version = version_2_0; result = result; error = err; id = id }

unfoldable pub new_error : Bytes → ℤ → Option Any → RequestId → Response
unfolding new_response
new_error msg code payload id =
    new_response id none (some (record { code = code; message = msg; payload = payload }))

unfoldable pub level_for_code : ℤ → Level
level_for_code code =
    if int_eq code internal_error_code
    then error
    else if int_eq code request_time_limit
    then warn
    else debug

-- The code and the payload of the *RPCError in a chain, in place of those given.
unfoldable pub authoritative : Option (Option (ℤ × Option Any)) → ℤ → ℤ × Option Any
authoritative (some (some (code, payload))) given = (code, payload)
authoritative (some none) given = (given, none)
authoritative none given = (given, none)

-- `errors.As` on the error, which may be nil.
unfoldable pub resolve : Option GoError → ℤ → ℤ × Option Any
unfolding authoritative as_rpc_error
resolve none given = (given, none)
resolve (some e) given = authoritative (as_rpc_error e) given

log_error : Bool → Option GoError → ℤ → List Event
unfolding level_for_code
log_error true (some e) code = error_logged (level_for_code code) code e ∷ []
log_error _ _ code = []

-- The message of a code that may be missing: Go reads the empty string.
unfoldable pub message_or_empty : Option Bytes → Bytes
message_or_empty none = []
message_or_empty (some msg) = msg

module _ {C : Type 0} where
  respond : Config C → Option Bytes → Option GoError → ℤ × Option Any → RequestId → M Response
  unfolding log_error message_or_empty new_error
  respond cfg (some msg) err (code, payload) id =
      (new_error msg code payload id, log_error cfg.logger err code)
  respond cfg none err (code, payload) id = (
    new_error (message_or_empty (lookup internal_error_code cfg.errors)) internal_error_code none
        id,
    (if cfg.logger then unregistered_code code ∷ [] else [])
        ++ log_error cfg.logger err internal_error_code,
  )

  unfoldable pub error_response : Config C → Option GoError → ℤ → RequestId → M Response
  unfolding respond resolve
  error_response cfg err given id =
      let code = (resolve err given).0 in
      respond cfg (lookup code cfg.errors) err (resolve err given) id

  -- `safeInternalResponse`.
  unfoldable pub safe_internal_response : Config C → RequestId → Response
  unfolding new_error message_or_empty
  safe_internal_response cfg id =
      new_error (message_or_empty (lookup internal_error_code cfg.errors)) internal_error_code none
        id
