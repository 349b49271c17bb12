-- ===== src/Stdio/Client/Calls.antt =====
-- jsonrpcstdio/client.go: `Call` and `Notify`, up to the wait for the response, and what a call
-- returns.
use golang_jsonrpc.Prelude.{
  ℕ, suc, ◌≡◌, inl, inr, refl, ap, ◌∙◌, Bool, true, false, List, [], ◌∷◌, Option, none, some, Bytes,
  bytes_Eq, beq_self, if◌then◌else◌,
}
use golang_jsonrpc.Prelude.Maps.{lookup, lookup-insert, lookup-delete}
use golang_jsonrpc.Text.Decimal.{print}
use golang_jsonrpc.Rpc.Types.{RequestId, RawMessage, Request, ErrorObject, Response, version_2_0}
use golang_jsonrpc.Rpc.Wire.{Codec, marshal_request}
use golang_jsonrpc.Stdio.Client.{
  Client, Fault, new_client, register, unregister, Sent, wrote, unframeable, broken, SendResult,
  sent, refused_closed, failed, write_open, write,
}
use golang_jsonrpc.Stdio.Client.Run.{Run}
use golang_jsonrpc.Stdio.Client.Once.{AtMostOne, Run-AtMostOne}

pub data CallReturn : Type 0 where
  result : RawMessage → CallReturn
  rpc_failure : ErrorObject → CallReturn
  marshal_failure : CallReturn
  write_failure : CallReturn
  context_done : CallReturn
  client_closed : Option Fault → CallReturn

-- `closedErr`
unfoldable pub closed_err : Client → CallReturn
closed_err c = client_closed c.cause

-- The request that goes out.
unfoldable pub request_of : Bytes → RawMessage → RequestId → Request
request_of method params id = record {
  version = version_2_0;
  method = method;
  params = params;
  id = id;
}

send_error : Client × SendResult → Client × Option CallReturn
unfolding closed_err
send_error (c, sent) = (c, none)
send_error (c, refused_closed) = (c, some (closed_err c))
send_error (c, failed) = (c, some write_failure)

-- `framed` is how the framer ends on the bytes of a request; no params are those that cannot be
-- marshaled.
module _ (k : Codec) (framed : Bytes → Sent) where
  unfoldable pub send_request :
      Bytes → Option RawMessage → RequestId → Client → Client × Option CallReturn
  unfolding send_error
  send_request method none id c = (c, some marshal_failure)
  send_request method (some params) id c =
      send_error (write (framed (marshal_request k (request_of method params id))) c)

  -- A call that could not be sent does not wait.
  unless_sent : ℕ → Client × Option CallReturn → Client × Option CallReturn
  unless_sent n (c, none) = (c, none)
  unless_sent n (c, some e) = (unregister n c, some e)

  -- `Call`, up to the wait.
  unfoldable pub begin_call : Bytes → Option RawMessage → Client → Client × Option CallReturn
  unfolding send_request unless_sent closed_err
  begin_call method params c =
      if c.closed
      then (c, some (closed_err c))
      else unless_sent (suc c.seq)
          (send_request method params (some (print (suc c.seq))) (register c))

  unfoldable pub notify : Bytes → Option RawMessage → Client → Client × Option CallReturn
  unfolding send_request closed_err
  notify method params c =
      if c.closed then (c, some (closed_err c)) else send_request method params none c

  -- Whether a call waits, by what it returned so far.
  abbrev pub Waits : ℕ → Client × Option CallReturn → Type 0
  Waits n (c, none) = lookup (print n) c.pending ≡ some n
  Waits n (c, some e) = lookup (print n) c.pending ≡ none

  unless_sent-Waits :
      (n : ℕ) (p : Client × Option CallReturn)
      → (p.1 ≡ none → lookup (print n) p.0.pending ≡ some n)
      → Waits n (unless_sent n p)
  unfolding unless_sent unregister
  unless_sent-Waits n (c, none) h = h refl
  unless_sent-Waits n (c, some e) h =
      lookup-delete (print n) (print n) c.pending ∙ rw (beq_self bytes_Eq (print n)) refl

  -- A request that is sent changes nothing in the table of calls.
  send_error_sent :
      (c : Client) (out : Sent)
      → (send_error (write_open out c)).1 ≡ none
      → (send_error (write_open out c)).0.pending ≡ c.pending
  unfolding send_error write_open
  send_error_sent c wrote e = refl
  send_error_sent c unframeable e = cc
  send_error_sent c broken e = cc

  send_error_write :
      (b : Bool) (c : Client) (out : Sent)
      → (send_error (if b then (c, refused_closed) else write_open out c)).1 ≡ none
      → (send_error (if b then (c, refused_closed) else write_open out c)).0.pending ≡ c.pending
  unfolding send_error
  send_error_write true c out e = cc
  send_error_write false c out e = send_error_sent c out e

  send_request_sent :
      (method : Bytes) (params : Option RawMessage) (id : RequestId) (c : Client)
      → (send_request method params id c).1 ≡ none
      → (send_request method params id c).0.pending ≡ c.pending
  unfolding send_request write
  send_request_sent method none id c e = cc
  send_request_sent method (some params) id c e = send_error_write c.writer_closed c _ e

  open-Waits :
      (b : Bool) (n : ℕ) (p q : Client × Option CallReturn)
      → b ≡ false
      → Waits n q
      → Waits n (if b then p else q)
  open-Waits true n p q e h = cc
  open-Waits false n p q e h = h

  -- A call on a client that is open either waits, registered under its number, or has failed and
  -- left nothing registered.
  pub begin_call-Waits :
      (method : Bytes) (params : Option RawMessage) (c : Client)
      → c.closed ≡ false
      → Waits (suc c.seq) (begin_call method params c)
  unfolding begin_call register
  begin_call-Waits method params c h =
      open-Waits c.closed (suc c.seq) (c, some (closed_err c)) _ h
        (unless_sent-Waits (suc c.seq)
          (send_request method params (some (print (suc c.seq))) (register c))
          (λ e.
            ap (lookup (print (suc c.seq))) (send_request_sent method params _ (register c) e)
            ∙ lookup-insert (print (suc c.seq)) (print (suc c.seq)) (suc c.seq) c.pending
            ∙ rw (beq_self bytes_Eq (print (suc c.seq))) refl))

result_of : Option RawMessage → CallReturn
result_of none = result none
result_of (some raw) = result raw

response_return : Option ErrorObject → Option RawMessage → CallReturn
unfolding result_of
response_return (some e) raw = rpc_failure e
response_return none raw = result_of raw

received_return : List Response → Option CallReturn
unfolding response_return
received_return [] = none
received_return (r ∷ rs) = some (response_return r.error r.result)

-- What ends the wait of a call.
pub data Wake : Type 0 where
  by_response by_context by_close : Wake

-- The `select` of a call that waits; `none` if the case is not ready.
unfoldable pub end_call : Wake → ℕ → Client → Client × Option CallReturn
unfolding received_return closed_err
end_call by_response n c = (c, received_return (c.inbox n))
end_call by_context n c = (unregister n c, some context_done)
end_call by_close n c = (c, if c.closed then some (closed_err c) else none)

no_error :
    (o : Option ErrorObject) (m : Option RawMessage) (raw : RawMessage)
    → response_return o m ≡ result raw
    → o ≡ none
unfolding response_return
no_error none m raw h = refl
no_error (some e) m raw h = cc

some_return : {a b : CallReturn} → some a ≡ some b → a ≡ b
some_return e = cc

received_own :
    (n : ℕ) (l : List Response) (raw : RawMessage)
    → AtMostOne n l
    → received_return l ≡ some (result raw)
    → (r : Response) × (l ≡ r ∷ []) × (r.error ≡ none) × (r.id ≡ some (print n))
unfolding received_return
received_own n [] raw h e = cc
received_own n (r ∷ []) raw (inl i) e = (r, refl, no_error r.error r.result raw (some_return e), i)
received_own n (r ∷ []) raw (inr (o, s)) e =
    cc (ap (λ x. x.error) s, no_error r.error r.result raw (some_return e))
received_own n (r ∷ s ∷ rs) raw h e = elim h [ ]

-- A call that returns a result has received one response, with no error and with the id of that very
-- call: in every run, whatever the peer sends.
pub end_call-own :
    (decode_response : Bytes → Option Response) (decode_request : Bytes → Option Request)
    {c : Client} (n : ℕ) (raw : RawMessage)
    → Run decode_response decode_request new_client c
    → (end_call by_response n c).1 ≡ some (result raw)
    → (r : Response) × (c.inbox n ≡ r ∷ []) × (r.error ≡ none) × (r.id ≡ some (print n))
unfolding end_call
end_call-own decode_response decode_request {c} n raw run e =
    received_own n (c.inbox n) raw (Run-AtMostOne decode_response decode_request n run) e
