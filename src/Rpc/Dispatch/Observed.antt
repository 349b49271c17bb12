-- ===== src/Rpc/Dispatch/Observed.antt =====
-- How often the observer is called, and with what.
use golang_jsonrpc.Prelude.{
  ℕ, ◌≡◌, refl, ap, ◌∙◌, Bool, true, false, List, [], ◌∷◌, ◌++◌, append-nil, Option, none, some,
  Bytes, bytes_Eq, int_Eq, pos, if◌then◌else◌,
}
use golang_jsonrpc.Rpc.Types.{
  Request, Response, ErrorObject, message, is_empty, Outcome, returned, panicked, CallInfo,
  ObserveFunc, Event, invalid_request_error_code, M,
}
use golang_jsonrpc.Rpc.Config.{Config}
use golang_jsonrpc.Rpc.Errors.Logs.{observations, observations-append, error_response-silent}
use golang_jsonrpc.Rpc.Errors.{error_response}
use golang_jsonrpc.Rpc.Call.{call}
use golang_jsonrpc.Rpc.Call.Logs.{call-silent}
use golang_jsonrpc.Rpc.Dispatch.{
  World, CtxErr, alive, deadline_exceeded, canceled, Abort, at_deadline, by_parent,
  validate_request, echoed, took_too_long, aborted, abandoned, enforced, inline, run, dispatch,
  reply, handle_rpc, observe, observe_by, observer_result, call_info, observe_outcome,
}

module _ {C : Type 0} (w : World C) (cfg : Config C) where
  enforced-silent :
      (ctx : C) (r : Request) (o : Option Abort) (ready : Bool)
      → observations (enforced w cfg ctx r o ready).1 ≡ []
  unfolding enforced abandoned took_too_long aborted
  enforced-silent ctx r none ready = call-silent cfg ctx r.method r.params r.id
  enforced-silent ctx r (some a) true = call-silent cfg ctx r.method r.params r.id
  enforced-silent ctx r (some at_deadline) false = error_response-silent cfg _ _ r.id
  enforced-silent ctx r (some (by_parent cause)) false = error_response-silent cfg _ _ r.id

  inline-silent :
      (r : Request) (e : CtxErr) (resp : Response) → observations (inline w cfg r e resp).1 ≡ []
  unfolding inline took_too_long
  inline-silent r deadline_exceeded resp = error_response-silent cfg _ _ r.id
  inline-silent r alive resp = refl
  inline-silent r (canceled cause) resp = refl

  run-silent :
      (ctx : C) (r : Request) (b : Bool) (o : Option Abort) (ready : Bool) (e : CtxErr)
      → observations (run w cfg ctx r b o ready e).1 ≡ []
  unfolding run
  run-silent ctx r true o ready e = enforced-silent ctx r o ready
  run-silent ctx r false o ready e =
      observations-append (call cfg ctx r.method r.params r.id).1 _
      ∙ rw (call-silent cfg ctx r.method r.params r.id) (inline-silent r e _)

  dispatch-silent : (ctx : C) (r : Request) → observations (dispatch w cfg ctx r).1 ≡ []
  unfolding dispatch
  dispatch-silent ctx r = run-silent _ r cfg.enforced_timeout _ _ _

  observer_result-once :
      (l : Bool) (i : CallInfo) (o : Outcome (Unit {0}))
      → observations (observer_result l i o) ≡ i ∷ []
  unfolding observer_result
  observer_result-once l i (returned u) = refl
  observer_result-once true i (panicked t) = refl
  observer_result-once false i (panicked t) = refl

  -- The calls of the observer for a response.
  abbrev pub expected : Option (ObserveFunc C) → CallInfo → List CallInfo
  expected none i = []
  expected (some f) i = i ∷ []

  observe_by-once :
      (o : Option (ObserveFunc C)) (l : Bool) (ctx : C) (i : CallInfo)
      → observations (observe_by o l ctx i).1 ≡ expected o i
  unfolding observe_by
  observe_by-once none l ctx i = refl
  observe_by-once (some f) l ctx i = observer_result-once l i (f ctx i)

  -- The events of the work, of the observer and of nothing else.
  with_observer :
      (es : List Event) (ctx : C) (resp : Response) (method : Bytes) (n : Bool) (elapsed : ℕ)
      → observations es ≡ []
      → observations (es ++ ((observe cfg ctx resp method n elapsed).1 ++ []))
        ≡ expected cfg.observe (call_info resp method n elapsed)
  unfolding observe
  with_observer es ctx resp method n elapsed h =
      observations-append es _
      ∙ ap
          (λ l.
            l
            ++ observations
                ((observe_by cfg.observe cfg.logger ctx (call_info resp method n elapsed)).1 ++ []))
          h
      ∙ ap observations
          (append-nil (observe_by cfg.observe cfg.logger ctx (call_info resp method n elapsed)).1)
      ∙ observe_by-once cfg.observe cfg.logger ctx _

  -- The observer is told of the response: of its error with the code, or of none with the code 0.
  abbrev pub TellsError : Option ErrorObject → CallInfo → Type 0
  TellsError none i = (i.code ≡ pos 0) × (i.err ≡ none)
  TellsError (some e) i = (i.code ≡ e.code) × (i.err ≡ some e)

  call_info-TellsError :
      (resp : Response) (method : Bytes) (n : Bool) (elapsed : ℕ) (e : Option ErrorObject)
      → resp.error ≡ e
      → TellsError e (call_info resp method n elapsed)
  unfolding call_info observe_outcome
  call_info-TellsError resp method n elapsed none h = rw h (refl, refl)
  call_info-TellsError resp method n elapsed (some e) h = rw h (refl, refl)

  -- What the observer is told of is the reply, or where there is none the response of the dispatch,
  -- which is not sent.
  abbrev pub TellsReply : C → Request → Option Response → CallInfo → Type 0
  TellsReply ctx r none i = (i.notification ≡ true) × TellsError (dispatch w cfg ctx r).0.error i
  TellsReply ctx r (some resp) i = (i.notification ≡ false) × TellsError resp.error i

  pub record Observed (ctx : C) (r : Request) : Type 0 where
    pub info : CallInfo
    pub once : observations (handle_rpc w cfg ctx r).1 ≡ expected cfg.observe info
    pub same_method : info.method ≡ r.method
    pub same_duration : info.duration ≡ w.elapsed ctx r
    pub tells : TellsReply ctx r (handle_rpc w cfg ctx r).0 info

  abbrev ReplyTold : C → Request → M (Option Response) → Type 0
  ReplyTold ctx r m =
      (resp : Response) × (n : Bool) × (observations m.1
        ≡ expected cfg.observe (call_info resp r.method n (w.elapsed ctx r)))
      × TellsReply ctx r m.0 (call_info resp r.method n (w.elapsed ctx r))

  silence :
      (ctx : C) (r : Request) (b : Bool)
      → TellsReply ctx r
          (if b then none else some (dispatch w cfg ctx r).0)
          (call_info (dispatch w cfg ctx r).0 r.method b (w.elapsed ctx r))
  unfolding call_info
  silence ctx r true =
      (refl, call_info-TellsError (dispatch w cfg ctx r).0 r.method true (w.elapsed ctx r) _ refl)
  silence ctx r false =
      (refl, call_info-TellsError (dispatch w cfg ctx r).0 r.method false (w.elapsed ctx r) _ refl)

  reply-told : (ctx : C) (r : Request) (v : Option Bytes) → ReplyTold ctx r (reply w cfg ctx r v)
  unfolding reply call_info
  reply-told ctx r (some text) =
      let answer : M Response =
        error_response cfg (some (message text)) invalid_request_error_code (echoed r.id) in
      (
        answer.0,
        false,
        with_observer answer.1 ctx answer.0 r.method false (w.elapsed ctx r) (
            error_response-silent cfg (some (message text)) invalid_request_error_code
              (echoed r.id)),
        (refl, call_info-TellsError answer.0 r.method false (w.elapsed ctx r) _ refl),
      )
  reply-told ctx r none = (
    (dispatch w cfg ctx r).0,
    is_empty r.id,
    with_observer (dispatch w cfg ctx r).1 ctx _ r.method (is_empty r.id) (w.elapsed ctx r)
        (dispatch-silent ctx r),
    silence ctx r (is_empty r.id),
  )

  told : (ctx : C) (r : Request) → ReplyTold ctx r (handle_rpc w cfg ctx r)
  unfolding handle_rpc
  told ctx r = reply-told ctx r (validate_request r)

  -- Every request is observed exactly once, if an observer is set, and otherwise never: with its
  -- method and the time it took, with the code and the error of the reply, or with the code 0 and no
  -- error if the reply has none, and marked as a notification exactly if there is no reply. A
  -- notification is observed with the outcome of its dispatch, which is not sent.
  pub handle_rpc-Observed : (ctx : C) (r : Request) → Observed ctx r
  unfolding call_info
  handle_rpc-Observed ctx r =
      let (resp, n, once, tells) = told ctx r in
      record {
        info = call_info resp r.method n (w.elapsed ctx r);
        once = once;
        same_method = refl;
        same_duration = refl;
        tells = tells;
      }
