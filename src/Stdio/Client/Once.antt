-- ===== src/Stdio/Client/Once.antt =====
-- What the channels of a client's calls receive, in every run.
use golang_jsonrpc.Prelude.{
  ℕ, suc, ◌<◌, ◌≡◌, ◌≢◌, ◌⊎◌, inl, inr, refl, ap, ◌∙◌, sym, subst, Bool, true, false, not, ◌&&◌,
  List, [], ◌∷◌, Option, none, some, Bool-cases, Bytes, bytes_Eq, if◌then◌else◌, ◌==◌, ==_iff, All,
  arith,
}
use golang_jsonrpc.Prelude.Maps.{Map, lookup, delete}
use golang_jsonrpc.Text.Decimal.{print}
use golang_jsonrpc.Text.Space.{trim_space}
use golang_jsonrpc.Stdio.Stream.{Read, frame, clean_eof, fatal}
use golang_jsonrpc.Rpc.Types.{RequestId, Request, Response, ErrorObject, is_empty}
use golang_jsonrpc.Stdio.Client.Run.{
  Step, registers, gives_up, writes, reads, closes, Run, done, next,
}
use golang_jsonrpc.Stdio.Client.Waiting.{
  Inbox, IsWaiting, Distinct, All-insert, All-delete, All-lookup, All-map, deleted-ne,
  Distinct-insert, Distinct-delete, both_All,
}
use golang_jsonrpc.Stdio.Client.{
  Client, Fault, new_client, send, send_all, shutdown, close, register, unregister, Sent, wrote,
  unframeable, broken, write_open, write, refused_closed, Push, handle_push, has_outcome, has_error,
  is_request_frame, deliver_to, deliver, rejection, fail_pending_with, is_null_id, undelivered,
  route_response, route, on_text, on_read,
}

-- The response carries the id that the call sent, or it is a rejection with no id.
abbrev pub Answers : ℕ → Response → Type 0
Answers n r = (r.id ≡ some (print n)) ⊎ ((e : ErrorObject) × (r ≡ rejection e))

-- A channel that has room for one response: at most one was ever sent, and it is an answer.
abbrev pub AtMostOne : ℕ → List Response → Type 0
AtMostOne n [] = Unit
AtMostOne n (r ∷ []) = Answers n r
AtMostOne n (r ∷ s ∷ rs) = ⊥

pub record IsValid (c : Client) : Type 0 where
  pub waiting : All (IsWaiting c.seq c.inbox) c.pending
  pub distinct : Distinct c.pending
  pub fresh : (n : ℕ) → c.seq < n → c.inbox n ≡ []
  pub received : (n : ℕ) → AtMostOne n (c.inbox n)

send-ne : (n i : ℕ) (r : Response) (f : Inbox) → i ≢ n → send n r f i ≡ f i
unfolding send
send-ne n i r f h = ground (arith, h)

send-AtMostOne :
    (n : ℕ) (r : Response) (f : Inbox)
    → f n ≡ []
    → Answers n r
    → ((i : ℕ) → AtMostOne i (f i))
    → (i : ℕ) → AtMostOne i (send n r f i)
unfolding send
send-AtMostOne n r f e a h i = elim (Bool-cases (i == n)) [
  | inl t ↦ rw t (subst (λ x. AtMostOne x (r ∷ f x)) (sym ((==_iff i n).0 t)) (rw e a))
  | inr t ↦ rw t (h i)
]

new_client-IsValid : IsValid new_client
new_client-IsValid = record { waiting = tt; distinct = tt; fresh = λ n h. refl; received = λ n. tt }

register-IsValid : (c : Client) → IsValid c → IsValid (register c)
unfolding register
register-IsValid c v = record {
  waiting =
      All-insert (IsWaiting (suc c.seq) c.inbox) (print (suc c.seq)) (suc c.seq) c.pending
        (refl, (omega arith, v.fresh (suc c.seq) (omega arith)))
        (All-map (IsWaiting c.seq c.inbox) (IsWaiting (suc c.seq) c.inbox) c.pending
          (λ e p. (p.0, (omega (arith, p.1.0), p.1.1))) v.waiting);
  distinct =
      Distinct-insert (print (suc c.seq)) (suc c.seq) c.pending
        (All-map (IsWaiting c.seq c.inbox) (λ e. e.1 ≢ suc c.seq) c.pending
          (λ e p h. omega (arith, p.1.0, h)) v.waiting)
        v.distinct;
  fresh = λ n h. v.fresh n (omega arith);
  received = v.received;
}

unregister-IsValid : (n : ℕ) (c : Client) → IsValid c → IsValid (unregister n c)
unfolding unregister
unregister-IsValid n c v = record {
  waiting = All-delete (IsWaiting c.seq c.inbox) (print n) c.pending v.waiting;
  distinct = Distinct-delete (print n) c.pending v.distinct;
  fresh = v.fresh;
  received = v.received;
}

IsValid-if : (b : Bool) {c d : Client} → IsValid c → IsValid d → IsValid (if b then c else d)
IsValid-if true v w = v
IsValid-if false v w = w

IsValid-either :
    {A : Type 0} (b : Bool) (p q : Client × A)
    → IsValid p.0
    → IsValid q.0
    → IsValid (if b then p else q).0
IsValid-either true p q v w = v
IsValid-either false p q v w = w

shutdown-IsValid : (cause : Option Fault) (c : Client) → IsValid c → IsValid (shutdown cause c)
unfolding shutdown
shutdown-IsValid cause c v =
    IsValid-if c.closed v
      (record { waiting = tt; distinct = tt; fresh = v.fresh; received = v.received })

latched-IsValid : (c : Client) → IsValid c → IsValid (record c { writer_closed = true })
latched-IsValid c v = record {
  waiting = v.waiting;
  distinct = v.distinct;
  fresh = v.fresh;
  received = v.received;
}

write_open-IsValid : (out : Sent) (c : Client) → IsValid c → IsValid (write_open out c).0
unfolding write_open
write_open-IsValid wrote c v = v
write_open-IsValid unframeable c v = v
write_open-IsValid broken c v = shutdown-IsValid _ _ (latched-IsValid c v)

write-IsValid : (out : Sent) (c : Client) → IsValid c → IsValid (write out c).0
unfolding write
write-IsValid out c v =
    IsValid-either c.writer_closed (c, refused_closed) (write_open out c) v
      (write_open-IsValid out c v)

deliver_to-IsValid :
    (r : Response) (id : Bytes) (o : Option ℕ) (c : Client)
    → r.id ≡ some id
    → lookup id c.pending ≡ o
    → IsValid c
    → IsValid (deliver_to r id o c).0
unfolding deliver_to
deliver_to-IsValid r id none c h e v = v
deliver_to-IsValid r id (some n) c h e v =
    let found : IsWaiting c.seq c.inbox (id, n) =
      All-lookup (IsWaiting c.seq c.inbox) id n c.pending v.waiting e in
    record {
      waiting =
          both_All (IsWaiting c.seq c.inbox) (λ e. e.0 ≢ id) (IsWaiting c.seq (send n r c.inbox))
            (delete id c.pending)
            (λ e p q. (
              p.0,
              (p.1.0, send-ne n e.1 r c.inbox (λ s. q (p.0 ∙ ap print s ∙ sym found.0)) ∙ p.1.1),
            ))
            (All-delete (IsWaiting c.seq c.inbox) id c.pending v.waiting) (deleted-ne id c.pending);
      distinct = Distinct-delete id c.pending v.distinct;
      fresh = λ i g. send-ne n i r c.inbox (λ s. omega (arith, found.1.0, g, s)) ∙ v.fresh i g;
      received = send-AtMostOne n r c.inbox found.1.1 (inl (h ∙ ap some found.0)) v.received;
    }

deliver-IsValid :
    (r : Response) (id : RequestId) (c : Client)
    → r.id ≡ id
    → IsValid c
    → IsValid (deliver r id c).0
unfolding deliver
deliver-IsValid r none c h v = v
deliver-IsValid r (some []) c h v = v
deliver-IsValid r (some (b ∷ id)) c h v = deliver_to-IsValid r (b ∷ id) _ c h refl v

send_all_fresh :
    (m : Map Bytes ℕ) (r : Response) (f : Inbox) (i : ℕ)
    → All (λ e. i ≢ e.1) m
    → send_all m r f i ≡ f i
unfolding send_all
send_all_fresh [] r f i h = refl
send_all_fresh ((id, n) ∷ m) r f i (q, h) = send_all_fresh m r (send n r f) i h ∙ send-ne n i r f q

send_all_received :
    (seq : ℕ) (m : Map Bytes ℕ) (e : ErrorObject) (f : Inbox)
    → All (IsWaiting seq f) m
    → Distinct m
    → ((i : ℕ) → AtMostOne i (f i))
    → (i : ℕ) → AtMostOne i (send_all m (rejection e) f i)
unfolding send_all
send_all_received seq [] e f w d h = h
send_all_received seq ((id, n) ∷ m) e f (p, w) (a, d) h =
    send_all_received seq m e (send n (rejection e) f)
      (both_All (IsWaiting seq f) (λ x. x.1 ≢ n) (IsWaiting seq (send n (rejection e) f)) m
        (λ x q ne. (q.0, (q.1.0, send-ne n x.1 (rejection e) f ne ∙ q.1.1))) w a)
      d (send-AtMostOne n (rejection e) f p.1.1 (inr (e, refl)) h)

fail_pending_with-IsValid :
    (e : ErrorObject) (c : Client) → IsValid c → IsValid (fail_pending_with e c)
unfolding fail_pending_with
fail_pending_with-IsValid e c v = record {
  waiting = tt;
  distinct = tt;
  fresh = λ i g.
      send_all_fresh c.pending (rejection e) c.inbox i (
        All-map (IsWaiting c.seq c.inbox) (λ x. i ≢ x.1) c.pending
          (λ x p s. omega (arith, p.1.0, g, s)) v.waiting)
      ∙ v.fresh i g;
  received = send_all_received c.seq c.pending e c.inbox v.waiting v.distinct v.received;
}

undelivered-IsValid :
    (o : Option ErrorObject) (id : RequestId) (c : Client)
    → IsValid c
    → IsValid (undelivered o id c)
unfolding undelivered
undelivered-IsValid none id c v = v
undelivered-IsValid (some e) id c v = IsValid-if (is_null_id id) (fail_pending_with-IsValid e c v) v

route_response-IsValid : (r : Response) (c : Client) → IsValid c → IsValid (route_response r c)
unfolding route_response
route_response-IsValid r c v =
    IsValid-if (deliver r r.id c).1 (deliver-IsValid r r.id c refl v)
      (undelivered-IsValid r.error r.id c v)

route-IsValid :
    (h : Bool) (q : Option Request) (o : Option Response) (c : Client)
    → IsValid c
    → IsValid (route h q o c).0
unfolding route
route-IsValid h q none c v = v
route-IsValid h q (some r) c v =
    let answer : Client × List Push = (route_response r c, []) in
    let request : Bool = not (has_outcome r) && not (is_empty r.id) && is_request_frame q in
    IsValid-either (is_empty r.id && not (has_error r)) (c, handle_push h q)
      (if request then (c, []) else answer) v
      (IsValid-either request (c, []) answer v (route_response-IsValid r c v))

module _ (decode_response : Bytes → Option Response) (decode_request : Bytes → Option Request) where
  on_text-IsValid :
      (h : Bool) (s : Bytes) (c : Client)
      → IsValid c
      → IsValid (on_text decode_response decode_request h s c).0
  unfolding on_text
  on_text-IsValid h [] c v = v
  on_text-IsValid h (b ∷ s) c v =
      IsValid-either (b == b'[') (c, [])
        (route h (decode_request (b ∷ s)) (decode_response (b ∷ s)) c) v
        (route-IsValid h (decode_request (b ∷ s)) (decode_response (b ∷ s)) c v)

  on_read-IsValid :
      (h : Bool) (r : Read) (c : Client)
      → IsValid c
      → IsValid (on_read decode_response decode_request h r c).0
  unfolding on_read
  on_read-IsValid h clean_eof c v = shutdown-IsValid _ _ (latched-IsValid c v)
  on_read-IsValid h (fatal e) c v = shutdown-IsValid _ _ (latched-IsValid c v)
  on_read-IsValid h (frame text rest) c v =
      IsValid-either c.closed (c, []) (on_text decode_response decode_request h (trim_space text) c)
        v (on_text-IsValid h (trim_space text) c v)

  Step-IsValid : {c d : Client} → Step decode_response decode_request c d → IsValid c → IsValid d
  unfolding close
  Step-IsValid (registers c) v = register-IsValid c v
  Step-IsValid (gives_up n c) v = unregister-IsValid n c v
  Step-IsValid (writes out c) v = write-IsValid out c v
  Step-IsValid (reads h r c) v = on_read-IsValid h r c v
  Step-IsValid (closes c) v = shutdown-IsValid _ _ (latched-IsValid c v)

  Run-IsValid : {c d : Client} → Run decode_response decode_request c d → IsValid c → IsValid d
  Run-IsValid (done c) v = v
  Run-IsValid (next s r) v = Run-IsValid r (Step-IsValid s v)

  -- In every run of a new client, whatever the peer sends and however the goroutines interleave, the
  -- channel of a call is sent to at most once, so that its one slot never blocks the read loop; and
  -- what is sent is a response with the id of that very call, or a rejection with no id.
  pub Run-AtMostOne :
      {c : Client} (n : ℕ)
      → Run decode_response decode_request new_client c
      → AtMostOne n (c.inbox n)
  Run-AtMostOne n r = (Run-IsValid r new_client-IsValid).received n
