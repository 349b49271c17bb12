-- ===== src/Rpc/Call.antt =====
-- main.go, interceptors.go: `call`, the chain of interceptors and the recovery of panics.
pub mod Replies
pub mod Logs
use golang_jsonrpc.Prelude.{
  ◌≡◌, refl, Bool, true, false, List, [], ◌∷◌, ◌++◌, Option, none, some, Bytes, bytes_Eq, ℤ,
  if◌then◌else◌,
}
use golang_jsonrpc.Prelude.Maps.{lookup}
use golang_jsonrpc.Rpc.Types.{
  RequestId, RawMessage, Response, GoError, message, RpcMethod, Interceptor, Outcome, returned,
  panicked, Returned, internal_error_code, method_not_found_error_code, ok_code, M, pure,
}
use golang_jsonrpc.Rpc.Config.{Config}
use golang_jsonrpc.Rpc.Errors.{new_response, error_response}

module _ {C : Type 0} where
  -- The first interceptor that returns an error ends the chain; each hands its context on.
  unfoldable pub call_global_interceptors :
      List (Interceptor C) → C → Bytes → RawMessage → RequestId → Outcome (C × ℤ × Option GoError)
  call_global_interceptors [] ctx method params id = returned (ctx, ok_code, none)
  call_global_interceptors (i ∷ is) ctx method params id = elim (i ctx method params id) [
    | panicked text ↦ panicked text
    | returned (ctx', code, some e) ↦ returned (ctx', code, some e)
    | returned (ctx', code, none) ↦ call_global_interceptors is ctx' method params id
  ]

  -- What the deferred function makes of a panic: its text is an error of no other kind.
  recovered : Config C → Bytes → RequestId → M Response
  recovered cfg text id = error_response cfg (some (message text)) internal_error_code id

  method_result : Config C → RequestId → Outcome Returned → M Response
  unfolding recovered
  method_result cfg id (panicked text) = recovered cfg text id
  method_result cfg id (returned r) = elim r.err [
    | some e ↦ error_response cfg (some e) r.code id
    | none ↦ pure (new_response id (some r.result) none)
  ]

  call_method : Config C → C → RawMessage → RequestId → Option (RpcMethod C) → M Response
  unfolding method_result
  call_method cfg ctx params id none = error_response cfg none method_not_found_error_code id
  call_method cfg ctx params id (some m) = method_result cfg id (m ctx params)

  intercepted :
      Config C → Bytes → RawMessage → RequestId → Outcome (C × ℤ × Option GoError) → M Response
  unfolding call_method recovered
  intercepted cfg method params id (panicked text) = recovered cfg text id
  intercepted cfg method params id (returned (ctx, code, some e)) =
      error_response cfg (some e) code id
  intercepted cfg method params id (returned (ctx, code, none)) =
      call_method cfg ctx params id (lookup method cfg.composed)

  unfoldable pub call : Config C → C → Bytes → RawMessage → RequestId → M Response
  unfolding intercepted call_global_interceptors
  call cfg ctx method params id =
      intercepted cfg method params id
        (call_global_interceptors cfg.global_interceptors ctx method params id)
