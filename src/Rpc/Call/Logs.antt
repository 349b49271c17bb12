-- ===== src/Rpc/Call/Logs.antt =====
-- A call is reported to the logger only, never to the observer.
use golang_jsonrpc.Prelude.{◌≡◌, [], Option, none, some, Bytes, bytes_Eq, ℤ, Option-cases, inl, inr}
use golang_jsonrpc.Prelude.Maps.{lookup}
use golang_jsonrpc.Rpc.Types.{
  RequestId, RawMessage, GoError, RpcMethod, Outcome, returned, panicked, Returned,
}
use golang_jsonrpc.Rpc.Config.{Config}
use golang_jsonrpc.Rpc.Errors.Logs.{observations, error_response-silent}
use golang_jsonrpc.Rpc.Call.{method_result, call_method, intercepted, call}

module _ {C : Type 0} (cfg : Config C) where
  method_result-silent :
      (id : RequestId) (o : Outcome Returned) → observations (method_result cfg id o).1 ≡ []
  unfolding method_result
  method_result-silent id (panicked text) = error_response-silent cfg _ _ id
  method_result-silent id (returned r) = elim (Option-cases r.err) [
    | inl n ↦ rw n
    | inr (e, s) ↦ rw s (error_response-silent cfg (some e) r.code id)
  ]

  call_method-silent :
      (ctx : C) (params : RawMessage) (id : RequestId) (o : Option (RpcMethod C))
      → observations (call_method cfg ctx params id o).1 ≡ []
  unfolding call_method
  call_method-silent ctx params id none = error_response-silent cfg _ _ id
  call_method-silent ctx params id (some m) = method_result-silent id (m ctx params)

  intercepted-silent :
      (method : Bytes) (params : RawMessage) (id : RequestId) (o : Outcome (C × ℤ × Option GoError))
      → observations (intercepted cfg method params id o).1 ≡ []
  unfolding intercepted
  intercepted-silent method params id (panicked text) = error_response-silent cfg _ _ id
  intercepted-silent method params id (returned (ctx, code, some e)) =
      error_response-silent cfg (some e) code id
  intercepted-silent method params id (returned (ctx, code, none)) =
      call_method-silent ctx params id (lookup method cfg.composed)

  pub call-silent :
      (ctx : C) (method : Bytes) (params : RawMessage) (id : RequestId)
      → observations (call cfg ctx method params id).1 ≡ []
  unfolding call
  call-silent ctx method params id = intercepted-silent method params id _
