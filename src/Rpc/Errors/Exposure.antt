-- ===== src/Rpc/Errors/Exposure.antt =====
-- What of an error reaches the client, and what stays in the log.
use golang_jsonrpc.Prelude.{
  ◌≡◌, refl, ap, ◌∙◌, true, Option, none, some, Bytes, int_Eq, ℤ, Option-cases, inl, inr,
}
use golang_jsonrpc.Prelude.Maps.{lookup, is_some}
use golang_jsonrpc.Rpc.Types.{
  Any, RequestId, ErrorObject, Response, GoError, as_rpc_error, version_2_0, internal_error_code,
}
use golang_jsonrpc.Rpc.Config.{Config}
use golang_jsonrpc.Rpc.Errors.{
  new_error, resolve, authoritative, message_or_empty, respond, error_response,
}

module _ {C : Type 0} (cfg : Config C) where
  -- An error response to the given id whose code is one of those registered.
  pub record IsErrorReply (id : RequestId) (r : Response) : Type 0 where
    pub version_is : r.version ≡ version_2_0
    pub id_is : r.id ≡ id
    pub no_result : r.result ≡ none
    pub object : ErrorObject
    pub error_is : r.error ≡ some object
    pub registered : is_some (lookup object.code cfg.errors) ≡ true

  respond-IsErrorReply :
      (msg : Option Bytes) (err : Option GoError) (code : ℤ) (payload : Option Any) (id : RequestId)
      → is_some (lookup internal_error_code cfg.errors) ≡ true
      → lookup code cfg.errors ≡ msg
      → IsErrorReply id (respond cfg msg err (code, payload) id).0
  unfolding respond
  respond-IsErrorReply (some msg) err code payload id h e = record {
    version_is = refl;
    id_is = refl;
    no_result = refl;
    object = _;
    error_is = refl;
    registered = rw e;
  }
  respond-IsErrorReply none err code payload id h e = record {
    version_is = refl;
    id_is = refl;
    no_result = refl;
    object = _;
    error_is = refl;
    registered = h;
  }

  -- Every error response carries the id that it was asked for, no result, and a registered code.
  pub error_response-IsErrorReply :
      (err : Option GoError) (given : ℤ) (id : RequestId)
      → is_some (lookup internal_error_code cfg.errors) ≡ true
      → IsErrorReply id (error_response cfg err given id).0
  unfolding error_response
  error_response-IsErrorReply err given id h =
      respond-IsErrorReply _ err (resolve err given).0 (resolve err given).1 id h refl

  respond_private :
      (msg : Option Bytes) (err err' : Option GoError) (p : ℤ × Option Any) (id : RequestId)
      → (respond cfg msg err p id).0 ≡ (respond cfg msg err' p id).0
  unfolding respond
  respond_private none err err' p id = refl
  respond_private (some msg) err err' p id = refl

  -- The text of an error never reaches the client: two errors whose chains have the same first
  -- *RPCError, or none, draw the same response, whatever else they wrap.
  pub error_response_private :
      (e f : GoError) (given : ℤ) (id : RequestId)
      → as_rpc_error e ≡ as_rpc_error f
      → (error_response cfg (some e) given id).0 ≡ (error_response cfg (some f) given id).0
  unfolding error_response
  error_response_private e f given id h =
      respond_private (lookup (authoritative (as_rpc_error e) given).0 cfg.errors) (some e) (some f)
        (authoritative (as_rpc_error e) given) id
      ∙ ap
          (λ a.
            (respond cfg (lookup (authoritative a given).0 cfg.errors) (some f)
              (authoritative a given) id).0)
          h

  -- The *RPCError of a chain decides: its code and its data are sent if the code is registered, and
  -- an unregistered one becomes an internal error with no data.
  pub error_response_authoritative :
      (e : GoError) (given code : ℤ) (payload : Option Any) (id : RequestId)
      → as_rpc_error e ≡ some (some (code, payload))
      → (error_response cfg (some e) given id).0 ≡ (elim (lookup code cfg.errors) [
        | some msg ↦ new_error msg code payload id
        | none ↦
            new_error
              (message_or_empty (lookup internal_error_code cfg.errors))
              internal_error_code
              none
              id
      ])
  unfolding error_response
  error_response_authoritative e given code payload id h =
      rw (h, authoritative)
        (elim (Option-cases (lookup code cfg.errors)) [
          | inl n ↦ rw n (unfold respond in refl)
          | inr (msg, s) ↦ rw s (unfold respond in refl)
        ])

  -- Any other error is reported under the code that it comes with, if that is registered.
  pub error_response_plain :
      (e : GoError) (given : ℤ) (msg : Bytes) (id : RequestId)
      → as_rpc_error e ≡ none
      → lookup given cfg.errors ≡ some msg
      → (error_response cfg (some e) given id).0 ≡ new_error msg given none id
  unfolding error_response
  error_response_plain e given msg id n s = rw (n, authoritative) (rw s (unfold respond in refl))
