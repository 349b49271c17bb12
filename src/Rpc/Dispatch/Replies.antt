-- ===== src/Rpc/Dispatch/Replies.antt =====
-- Who is answered, with which id, and what an answer holds.
use golang_jsonrpc.Prelude.{
  ◌≡◌, ◌↔◌, refl, subst, Bool, true, false, [], ◌∷◌, arith, Option, none, some, Bytes, bytes_Eq,
  int_Eq, if◌then◌else◌, Bool-cases, inl, inr,
}
use golang_jsonrpc.Prelude.Maps.{lookup, is_some}
use golang_jsonrpc.Json.Scanner.{valid}
use golang_jsonrpc.Rpc.Types.{
  RequestId, Request, Response, is_empty, internal_error_code, message, invalid_request_error_code,
}
use golang_jsonrpc.Rpc.Config.{Config}
use golang_jsonrpc.Rpc.Config.Consistent.{IsConsistent}
use golang_jsonrpc.Rpc.Errors.{error_response}
use golang_jsonrpc.Rpc.Call.Replies.{IsReply, error_response-IsReply, call-IsReply}
use golang_jsonrpc.Rpc.Dispatch.{
  World, CtxErr, alive, deadline_exceeded, canceled, Abort, at_deadline, by_parent,
  validate_request, echoed, took_too_long, aborted, abandoned, enforced, inline, run, dispatch,
  reply, handle_rpc,
}

module _ {C : Type 0} (cfg : Config C) where
  module _ (h : is_some (lookup internal_error_code cfg.errors) ≡ true) where
    enforced-IsReply :
        (w : World C) (ctx : C) (r : Request) (o : Option Abort) (ready : Bool)
        → IsReply cfg r.id (enforced w cfg ctx r o ready).0
    unfolding enforced abandoned took_too_long aborted
    enforced-IsReply w ctx r none ready = call-IsReply cfg h ctx r.method r.params r.id
    enforced-IsReply w ctx r (some a) true = call-IsReply cfg h ctx r.method r.params r.id
    enforced-IsReply w ctx r (some at_deadline) false = error_response-IsReply cfg h _ _ r.id
    enforced-IsReply w ctx r (some (by_parent cause)) false = error_response-IsReply cfg h _ _ r.id

    inline-IsReply :
        (w : World C) (r : Request) (e : CtxErr) (resp : Response)
        → IsReply cfg r.id resp
        → IsReply cfg r.id (inline w cfg r e resp).0
    unfolding inline took_too_long
    inline-IsReply w r deadline_exceeded resp h' = error_response-IsReply cfg h _ _ r.id
    inline-IsReply w r alive resp h' = h'
    inline-IsReply w r (canceled cause) resp h' = h'

    run-IsReply :
        (w : World C) (ctx : C) (r : Request) (b : Bool) (o : Option Abort) (ready : Bool)
        (e : CtxErr)
        → IsReply cfg r.id (run w cfg ctx r b o ready e).0
    unfolding run
    run-IsReply w ctx r true o ready e = enforced-IsReply w ctx r o ready
    run-IsReply w ctx r false o ready e =
        inline-IsReply w r e _ (call-IsReply cfg h ctx r.method r.params r.id)

    pub dispatch-IsReply :
        (w : World C) (ctx : C) (r : Request) → IsReply cfg r.id (dispatch w cfg ctx r).0
    unfolding dispatch
    dispatch-IsReply w ctx r = run-IsReply w _ r cfg.enforced_timeout _ _ _

  reply_silent :
      (w : World C) (ctx : C) (r : Request) (v : Option Bytes)
      → ((reply w cfg ctx r v).0 ≡ none) ↔ ((v ≡ none) × (is_empty r.id ≡ true))
  unfolding reply
  reply_silent w ctx r (some text) = ((λ x. cc), (λ x. cc x.0))
  reply_silent w ctx r none = elim (Bool-cases (is_empty r.id)) [
    | inl e ↦ rw e ((λ _. (refl, refl)), (λ _. refl))
    | inr e ↦ rw e ((λ x. cc), (λ x. cc x.1))
  ]

  -- A request is left unanswered exactly if it is a notification: a request that passes validation
  -- and has no id. An invalid request is answered even without an id.
  pub handle_rpc_silent :
      (w : World C) (ctx : C) (r : Request)
      → ((handle_rpc w cfg ctx r).0 ≡ none) ↔ ((validate_request r ≡ none) × (is_empty r.id ≡ true))
  unfolding handle_rpc
  handle_rpc_silent w ctx r = reply_silent w ctx r (validate_request r)

  -- What holds of a response, if there is one.
  abbrev Holds : (Response → Type 0) → Option Response → Type 0
  Holds P none = Unit
  Holds P (some r) = P r

  Holds-silence :
      (P : Response → Type 0) (b : Bool) {r : Response} → P r → Holds P (if b then none else some r)
  Holds-silence P true h = tt
  Holds-silence P false h = h

  -- The id that an answer must have, by what is wrong with the request: its own, unless it is wrong
  -- and has an id that is no JSON.
  abbrev pub answered_id : Option Bytes → RequestId → RequestId
  answered_id none id = id
  answered_id (some text) none = none
  answered_id (some text) (some []) = some []
  answered_id (some text) (some (c ∷ s)) = if valid (c ∷ s) then some (c ∷ s) else none

  echoed_lem : (text : Bytes) (id : RequestId) → echoed id ≡ answered_id (some text) id
  unfolding echoed
  echoed_lem text none = refl
  echoed_lem text (some []) = refl
  echoed_lem text (some (c ∷ s)) = ground arith

  reply-IsReply :
      (w : World C) (ctx : C) (r : Request) (v : Option Bytes)
      → IsConsistent cfg
      → Holds (IsReply cfg (answered_id v r.id)) (reply w cfg ctx r v).0
  unfolding reply
  reply-IsReply w ctx r (some text) c =
      subst
        (λ id.
          IsReply cfg id
            (error_response cfg (some (message text)) invalid_request_error_code (echoed r.id)).0)
        (echoed_lem text r.id) (error_response-IsReply cfg c.internal_registered _ _ (echoed r.id))
  reply-IsReply w ctx r none c =
      Holds-silence (IsReply cfg r.id) (is_empty r.id)
        (dispatch-IsReply c.internal_registered w ctx r)

  -- If the configuration is consistent, every answer is well formed: version 2.0, either a result or
  -- an error whose code is registered, and the id of the request if that is valid; an invalid request
  -- is answered with its own id if that is JSON, and with no id if it has none or one that is not
  -- JSON.
  pub handle_rpc-IsReply :
      (w : World C) (ctx : C) (r : Request) {resp : Response}
      → IsConsistent cfg
      → (handle_rpc w cfg ctx r).0 ≡ some resp
      → IsReply cfg (answered_id (validate_request r) r.id) resp
  unfolding handle_rpc
  handle_rpc-IsReply w ctx r c e =
      subst (Holds (IsReply cfg (answered_id (validate_request r) r.id))) e
        (reply-IsReply w ctx r (validate_request r) c)
