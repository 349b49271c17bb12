-- ===== src/Rpc/Call/Replies.antt =====
-- What a call answers with.
use golang_jsonrpc.Prelude.{
  ◌≡◌, ◌⊎◌, refl, true, Option, none, some, Bytes, bytes_Eq, int_Eq, ℤ, Option-cases, inl, inr,
}
use golang_jsonrpc.Prelude.Maps.{lookup, is_some}
use golang_jsonrpc.Rpc.Types.{
  RequestId, RawMessage, Response, GoError, RpcMethod, Outcome, returned, panicked, Returned,
  internal_error_code,
}
use golang_jsonrpc.Rpc.Config.{Config}
use golang_jsonrpc.Rpc.Errors.{new_response, error_response}
use golang_jsonrpc.Rpc.Errors.Exposure.{IsErrorReply, error_response-IsErrorReply}
use golang_jsonrpc.Rpc.Call.{method_result, call_method, intercepted, call}

module _ {C : Type 0} (cfg : Config C) where
  -- A result, or an error with a registered code, never both; with the id asked for.
  abbrev pub IsReply : RequestId → Response → Type 0
  IsReply id r =
      IsErrorReply cfg id r ⊎ ((raw : RawMessage) × (r ≡ new_response id (some raw) none))

  module _ (h : is_some (lookup internal_error_code cfg.errors) ≡ true) where
    pub error_response-IsReply :
        (err : Option GoError) (given : ℤ) (id : RequestId)
        → IsReply id (error_response cfg err given id).0
    error_response-IsReply err given id = inl (error_response-IsErrorReply cfg err given id h)

    method_result-IsReply :
        (id : RequestId) (o : Outcome Returned) → IsReply id (method_result cfg id o).0
    unfolding method_result
    method_result-IsReply id (panicked text) = error_response-IsReply _ _ id
    method_result-IsReply id (returned r) = elim (Option-cases r.err) [
      | inl n ↦ rw n (inr (r.result, refl))
      | inr (e, s) ↦ rw s (error_response-IsReply (some e) r.code id)
    ]

    call_method-IsReply :
        (ctx : C) (params : RawMessage) (id : RequestId) (o : Option (RpcMethod C))
        → IsReply id (call_method cfg ctx params id o).0
    unfolding call_method
    call_method-IsReply ctx params id none = error_response-IsReply _ _ id
    call_method-IsReply ctx params id (some m) = method_result-IsReply id (m ctx params)

    intercepted-IsReply :
        (method : Bytes) (params : RawMessage) (id : RequestId)
        (o : Outcome (C × ℤ × Option GoError))
        → IsReply id (intercepted cfg method params id o).0
    unfolding intercepted
    intercepted-IsReply method params id (panicked text) = error_response-IsReply _ _ id
    intercepted-IsReply method params id (returned (ctx, code, some e)) =
        error_response-IsReply (some e) code id
    intercepted-IsReply method params id (returned (ctx, code, none)) =
        call_method-IsReply ctx params id (lookup method cfg.composed)

    -- Whatever interceptors and handlers do, panics included, a call has a well-formed response.
    pub call-IsReply :
        (ctx : C) (method : Bytes) (params : RawMessage) (id : RequestId)
        → IsReply id (call cfg ctx method params id).0
    unfolding call
    call-IsReply ctx method params id = intercepted-IsReply method params id _
