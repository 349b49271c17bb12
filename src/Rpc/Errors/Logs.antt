-- ===== src/Rpc/Errors/Logs.antt =====
-- Error responses are reported to the logger only, never to the observer.
use golang_jsonrpc.Prelude.{
  ◌≡◌, refl, ap, Bool, true, false, List, [], ◌∷◌, ◌++◌, Option, none, some, Bytes, int_Eq, ℤ,
  if◌then◌else◌,
}
use golang_jsonrpc.Rpc.Types.{
  Any, RequestId, GoError, CallInfo, Event, error_logged, unregistered_code, reserved_code,
  observed, observer_panicked, marshal_failed, request_too_large, batch_too_large,
}
use golang_jsonrpc.Rpc.Config.{Config}
use golang_jsonrpc.Rpc.Errors.{resolve, log_error, respond, error_response}

-- The calls of the observer among the events.
abbrev pub observations : List Event → List CallInfo
observations [] = []
observations (observed i ∷ es) = i ∷ observations es
observations (error_logged _ _ _ ∷ es) = observations es
observations (unregistered_code _ ∷ es) = observations es
observations (reserved_code _ ∷ es) = observations es
observations (observer_panicked _ ∷ es) = observations es
observations (marshal_failed ∷ es) = observations es
observations (request_too_large _ ∷ es) = observations es
observations (batch_too_large _ ∷ es) = observations es

pub observations-append :
    (es fs : List Event) → observations (es ++ fs) ≡ observations es ++ observations fs
observations-append [] fs = refl
observations-append (observed i ∷ es) fs = ap (◌∷◌ i) (observations-append es fs)
observations-append (error_logged _ _ _ ∷ es) fs = observations-append es fs
observations-append (unregistered_code _ ∷ es) fs = observations-append es fs
observations-append (reserved_code _ ∷ es) fs = observations-append es fs
observations-append (observer_panicked _ ∷ es) fs = observations-append es fs
observations-append (marshal_failed ∷ es) fs = observations-append es fs
observations-append (request_too_large _ ∷ es) fs = observations-append es fs
observations-append (batch_too_large _ ∷ es) fs = observations-append es fs

log_error-silent :
    (l : Bool) (e : Option GoError) (code : ℤ) → observations (log_error l e code) ≡ []
unfolding log_error
log_error-silent true (some e) code = refl
log_error-silent true none code = refl
log_error-silent false (some e) code = refl
log_error-silent false none code = refl

warning-silent :
    (l : Bool) (code : ℤ) (es : List Event)
    → observations es ≡ []
    → observations ((if l then unregistered_code code ∷ [] else []) ++ es) ≡ []
warning-silent true code es h = h
warning-silent false code es h = h

module _ {C : Type 0} (cfg : Config C) where
  respond-silent :
      (msg : Option Bytes) (err : Option GoError) (code : ℤ) (payload : Option Any) (id : RequestId)
      → observations (respond cfg msg err (code, payload) id).1 ≡ []
  unfolding respond
  respond-silent (some msg) err code payload id = log_error-silent cfg.logger err code
  respond-silent none err code payload id =
      warning-silent cfg.logger code _ (log_error-silent cfg.logger err _)

  pub error_response-silent :
      (err : Option GoError) (given : ℤ) (id : RequestId)
      → observations (error_response cfg err given id).1 ≡ []
  unfolding error_response
  error_response-silent err given id =
      respond-silent _ err (resolve err given).0 (resolve err given).1 id
