-- ===== src/Rpc/Dispatch.antt =====
-- handle.go, observe.go: one request, from its validation to the reply and the observer.
pub mod Replies
pub mod Observed
use golang_jsonrpc.Prelude.{
  ℕ, ◌+◌, ◌-◌, ◌≡◌, refl, Bool, true, false, ◌&&◌, ◌||◌, not, List, [], ◌∷◌, ◌++◌, Option, none,
  some, Bytes, bytes_eq, bytes_Eq, codes, ℤ, pos, negsuc, int_leb, if◌then◌else◌, ◌==◌, leb, is_nil,
}
use golang_jsonrpc.Prelude.Maps.{lookup}
use golang_jsonrpc.Json.Scanner.{valid}
use golang_jsonrpc.Rpc.Types.{
  RequestId, RawMessage, Request, ErrorObject, Response, GoError, message, wrap, is_empty,
  version_2_0, Outcome, returned, panicked, CallInfo, ObserveFunc, internal_error_code,
  invalid_request_error_code, request_time_limit, ok_code, Event, observed, observer_panicked, M,
  pure, tell, ◌>>=◌, ◌>>◌,
}
use golang_jsonrpc.Rpc.Config.{Config, MethodInfo}
use golang_jsonrpc.Rpc.Errors.{error_response}
use golang_jsonrpc.Rpc.Call.{call}

-- How a context has ended.
pub data CtxErr : Type 0 where
  alive deadline_exceeded : CtxErr
  canceled : GoError → CtxErr

-- How the context of an enforced call has ended.
pub data Abort : Type 0 where
  at_deadline : Abort
  by_parent : GoError → Abort

-- What Go's runtime and its packages context, time and fmt contribute to one dispatch.
pub record World (C : Type 0) : Type 0 where
  -- `context.WithTimeout`
  pub with_timeout : C → ℤ → C
  -- `ctxt.Err()` once an inline handler has returned, for the timeout that the context was given
  pub ctx_err : ℤ → C → Request → CtxErr
  -- what the `select` of an enforced call takes: `none` is the response
  pub selected : ℤ → C → Request → Option Abort
  -- whether the response is there once the context has ended, for the `select` inside of that one
  pub is_ready : ℤ → C → Request → Bool
  pub elapsed : C → Request → ℕ
  -- `%q`
  pub quote : Bytes → Bytes

abbrev starts_id : ℕ → Bool
starts_id c = c == b'"' || c == b'-' || c == b'n' || (leb b'0' c && leb c b'9')

-- The text of the error about an id that is present.
validate_id : Bytes → Option Bytes
validate_id [] = none
validate_id (c ∷ s) =
    if starts_id c
    then (if not (valid (c ∷ s)) then some (codes "id is not a valid JSON value") else none)
    else some (codes "id must be a string, number, or null")

bytes_of : Option Bytes → Bytes
bytes_of none = []
bytes_of (some s) = s

unfoldable pub validate_request : Request → Option Bytes
unfolding validate_id bytes_of
validate_request r =
    if not (bytes_eq r.version version_2_0)
    then some (codes "not valid version")
    else if is_nil r.method
    then some (codes "method is required")
    else validate_id (bytes_of r.id)

-- An id that is no JSON value is not echoed.
unfoldable pub echoed : RequestId → RequestId
unfolding bytes_of
echoed id = if not (is_empty id) && not (valid (bytes_of id)) then none else id

-- `observeOutcome`
unfoldable pub observe_outcome : Response → ℤ × Option ErrorObject
observe_outcome r = elim r.error [ none ↦ (ok_code, none) | some e ↦ (e.code, some e) ]

unfoldable pub call_info : Response → Bytes → Bool → ℕ → CallInfo
unfolding observe_outcome
call_info r method notification elapsed = record {
  method = method;
  code = (observe_outcome r).0;
  err = (observe_outcome r).1;
  duration = elapsed;
  notification = notification;
}

-- The recovery of an observer that panics.
observer_result : Bool → CallInfo → Outcome (Unit {0}) → List Event
observer_result logger info (returned u) = observed info ∷ []
observer_result true info (panicked text) = observed info ∷ observer_panicked text ∷ []
observer_result false info (panicked text) = observed info ∷ []

abbrev is_positive : ℤ → Bool
is_positive t = not (int_leb t (pos 0))

method_timeout : ℤ → Option MethodInfo → ℤ
method_timeout default none = default
method_timeout default (some info) = if is_positive info.timeout then info.timeout else default

module _ {C : Type 0} where
  observe_by : Option (ObserveFunc C) → Bool → C → CallInfo → M (Unit {0})
  unfolding observer_result
  observe_by none logger ctx info = pure tt
  observe_by (some f) logger ctx info = tell (observer_result logger info (f ctx info))

  unfoldable pub observe : Config C → C → Response → Bytes → Bool → ℕ → M (Unit {0})
  unfolding observe_by
  observe cfg ctx r method notification elapsed =
      observe_by cfg.observe cfg.logger ctx (call_info r method notification elapsed)

  unfoldable pub timeout_of : Config C → Bytes → ℤ
  unfolding method_timeout
  timeout_of cfg method = method_timeout cfg.default_timeout (lookup method cfg.method_info)

  unfoldable pub took_too_long : World C → Config C → Request → M Response
  took_too_long w cfg r =
      error_response cfg
        (some (message (codes "method " ++ (w.quote r.method ++ codes " took too long"))))
        request_time_limit r.id

  aborted : World C → Config C → Request → GoError → M Response
  aborted w cfg r cause =
      error_response cfg
        (some (wrap (codes "method " ++ (w.quote r.method ++ codes " aborted")) cause))
        request_time_limit r.id

  abandoned : World C → Config C → Request → Abort → M Response
  unfolding aborted
  abandoned w cfg r at_deadline = took_too_long w cfg r
  abandoned w cfg r (by_parent cause) = aborted w cfg r cause

  -- The enforced mode: the response, which is preferred if it is ready, or the abort. What an
  -- abandoned handler still logs is not among the events.
  enforced : World C → Config C → C → Request → Option Abort → Bool → M Response
  unfolding abandoned
  enforced w cfg ctxt r none ready = call cfg ctxt r.method r.params r.id
  enforced w cfg ctxt r (some a) true = call cfg ctxt r.method r.params r.id
  enforced w cfg ctxt r (some a) false = abandoned w cfg r a

  -- The inline mode: the response is replaced only if the deadline has passed.
  inline : World C → Config C → Request → CtxErr → Response → M Response
  inline w cfg r deadline_exceeded resp = took_too_long w cfg r
  inline w cfg r alive resp = pure resp
  inline w cfg r (canceled cause) resp = pure resp

  -- The two regimes; the flag is `enforcedTimeout`.
  run : World C → Config C → C → Request → Bool → Option Abort → Bool → CtxErr → M Response
  unfolding enforced inline
  run w cfg ctxt r true selected ready err = enforced w cfg ctxt r selected ready
  run w cfg ctxt r false selected ready err = do
    resp ← call cfg ctxt r.method r.params r.id
    inline w cfg r err resp

  unfoldable pub dispatch : World C → Config C → C → Request → M Response
  unfolding run
  dispatch w cfg ctx r =
      let timeout = timeout_of cfg r.method in
      run w cfg (w.with_timeout ctx timeout) r cfg.enforced_timeout (w.selected timeout ctx r)
        (w.is_ready timeout ctx r) (w.ctx_err timeout ctx r)

  reply_invalid : World C → Config C → C → Request → Bytes → M (Option Response)
  reply_invalid w cfg ctx r text = do
    resp ← error_response cfg (some (message text)) invalid_request_error_code (echoed r.id)
    observe cfg ctx resp r.method false (w.elapsed ctx r)
    pure (some resp)

  reply_valid : World C → Config C → C → Request → M (Option Response)
  reply_valid w cfg ctx r = do
    resp ← dispatch w cfg ctx r
    observe cfg ctx resp r.method (is_empty r.id) (w.elapsed ctx r)
    pure (if is_empty r.id then none else some resp)

  reply : World C → Config C → C → Request → Option Bytes → M (Option Response)
  unfolding reply_invalid reply_valid
  reply w cfg ctx r (some text) = reply_invalid w cfg ctx r text
  reply w cfg ctx r none = reply_valid w cfg ctx r

  unfoldable pub handle_rpc : World C → Config C → C → Request → M (Option Response)
  unfolding reply
  handle_rpc w cfg ctx r = reply w cfg ctx r (validate_request r)
