-- ===== src/Stdio/Client.antt =====
-- jsonrpcstdio/client.go and jsonrpcstdio/push.go: the state of a client, the calls that wait for a
-- response, and the latched writer. A call is named by the number that its id is printed from. What
-- was ever sent on its channel is kept in `inbox`, so a call that receives is no step. That a call
-- takes its id and registers its channel is one step.
pub mod Run
pub mod Waiting
pub mod Once
pub mod Calls
use golang_jsonrpc.Prelude.{
  ℕ, suc, ◌+◌, ◌≡◌, refl, Bool, true, false, ◌&&◌, not, List, [], ◌∷◌, Option, none, some, Bytes,
  bytes_eq, bytes_Eq, codes, if◌then◌else◌, ◌==◌,
}
use golang_jsonrpc.Prelude.Maps.{Map, lookup, insert, delete}
use golang_jsonrpc.Text.Space.{trim_space}
use golang_jsonrpc.Text.Decimal.{print}
use golang_jsonrpc.Stdio.Stream.{FrameError, Read, frame, clean_eof, fatal}
use golang_jsonrpc.Rpc.Types.{RequestId, RawMessage, Request, ErrorObject, Response, is_empty}

-- What the stream died of.
pub data Fault : Type 0 where
  read_fault : FrameError → Fault
  write_fault : Fault

pub record Client : Type 0 where
  pub seq : ℕ
  pub pending : Map Bytes ℕ
  pub inbox : ℕ → List Response
  pub closed : Bool
  pub cause : Option Fault
  pub writer_closed : Bool

-- `NewClient`
abbrev pub new_client : Client
new_client = record {
  seq = 0;
  pending = [];
  inbox = λ n. [];
  closed = false;
  cause = none;
  writer_closed = false;
}

-- `ch <- resp`
unfoldable pub send : ℕ → Response → (ℕ → List Response) → ℕ → List Response
send n r inbox i = if i == n then r ∷ inbox i else inbox i

unfoldable pub shutdown : Option Fault → Client → Client
shutdown cause c = if c.closed then c else record c { closed = true; cause = cause; pending = [] }

-- `connWriter.close`
abbrev latch : Client → Client
latch c = record c { writer_closed = true }

unfoldable pub close : Client → Client
unfolding shutdown
close c = shutdown none (latch c)

-- `nextID`
abbrev next_id : Client → ℕ
next_id c = suc c.seq

-- A call takes its id and registers its channel.
unfoldable pub register : Client → Client
register c = record c {
  seq = suc c.seq;
  pending = insert (print (suc c.seq)) (suc c.seq) c.pending;
}

-- `unregister`, when the request could not be sent or the call stops waiting.
unfoldable pub unregister : ℕ → Client → Client
unregister n c = record c { pending = delete (print n) c.pending }

-- How the framer's write ends.
pub data Sent : Type 0 where
  wrote unframeable broken : Sent

pub data SendResult : Type 0 where
  sent refused_closed failed : SendResult

write_open : Sent → Client → Client × SendResult
unfolding shutdown
write_open wrote c = (c, sent)
write_open unframeable c = (c, failed)
write_open broken c = (shutdown (some write_fault) (record c { writer_closed = true }), failed)

unfoldable pub write : Sent → Client → Client × SendResult
unfolding write_open
write out c = if c.writer_closed then (c, refused_closed) else write_open out c

deliver_to : Response → Bytes → Option ℕ → Client → Client × Bool
deliver_to r id none c = (c, false)
deliver_to r id (some n) c =
    (record c { pending = delete id c.pending; inbox = send n r c.inbox }, true)

unfoldable pub deliver : Response → RequestId → Client → Client × Bool
unfolding deliver_to
deliver r none c = (c, false)
deliver r (some []) c = (c, false)
deliver r (some (b ∷ id)) c = deliver_to r (b ∷ id) (lookup (b ∷ id) c.pending) c

abbrev pub rejection : ErrorObject → Response
rejection e = record { version = []; result = none; error = some e; id = none }

unfoldable pub send_all : Map Bytes ℕ → Response → (ℕ → List Response) → ℕ → List Response
send_all [] r inbox = inbox
send_all ((id, n) ∷ m) r inbox = send_all m r (send n r inbox)

unfoldable pub fail_pending_with : ErrorObject → Client → Client
unfolding send_all
fail_pending_with e c = record c { pending = []; inbox = send_all c.pending (rejection e) c.inbox }

unfoldable pub is_null_id : RequestId → Bool
is_null_id none = true
is_null_id (some []) = true
is_null_id (some (b ∷ id)) = bytes_eq (b ∷ id) (codes "null")

-- A response that no call waits for; an error with no id fails every call.
undelivered : Option ErrorObject → RequestId → Client → Client
undelivered none id c = c
undelivered (some e) id c = if is_null_id id then fail_pending_with e c else c

route_response : Response → Client → Client
unfolding undelivered
route_response r c =
    if (deliver r r.id c).1 then (deliver r r.id c).0 else undelivered r.error r.id c

abbrev lacks_method : Request → Bool
lacks_method r = is_empty (some r.method)

-- `isRequestFrame`
is_request_frame : Option Request → Bool
is_request_frame none = false
is_request_frame (some r) = not (lacks_method r)

-- What reaches the notification handler.
abbrev pub Push : Type 0
Push = Bytes × RawMessage

unfoldable pub handle_push : Bool → Option Request → List Push
handle_push true (some r) = if lacks_method r then [] else (r.method, r.params) ∷ []
handle_push _ _ = []

abbrev has_outcome : Response → Bool
has_outcome r = elim r.error [
  | some e ↦ true
  | none ↦ elim r.result [ some raw ↦ true | none ↦ false ]
]

abbrev has_error : Response → Bool
has_error r = elim r.error [ some e ↦ true | none ↦ false ]

-- A frame that decodes as a response; the request that the same bytes decode to is given too.
route : Bool → Option Request → Option Response → Client → Client × List Push
unfolding route_response is_request_frame
route handler request none c = (c, [])
route handler request (some r) c =
    if is_empty r.id && not (has_error r)
    then (c, handle_push handler request)
    else if not (has_outcome r) && not (is_empty r.id) && is_request_frame request
    then (c, [])
    else (route_response r c, [])

module _ (decode_response : Bytes → Option Response) (decode_request : Bytes → Option Request)
    (handler : Bool) where
  on_text : Bytes → Client → Client × List Push
  unfolding route
  on_text [] c = (c, [])
  on_text (b ∷ s) c =
      if b == b'['
      then (c, [])
      else route handler (decode_request (b ∷ s)) (decode_response (b ∷ s)) c

  -- One round of `readLoop`.
  unfoldable pub on_read : Read → Client → Client × List Push
  unfolding on_text
  on_read clean_eof c = (shutdown none (latch c), [])
  on_read (fatal e) c = (shutdown (some (read_fault e)) (latch c), [])
  on_read (frame text rest) c = if c.closed then (c, []) else on_text (trim_space text) c
