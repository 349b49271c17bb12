-- ===== src/Ws/Serve/Handled.antt =====
-- Every message that the WebSocket server reads is handled once.
use golang_jsonrpc.Prelude.{
  ℕ, ◌+◌, ◌≤◌, ◌<◌, ◌≡◌, refl, sym, ap, ◌∙◌, subst, Bool, true, false, List, [], ◌∷◌, ◌++◌,
  append_assoc, Option, none, some, Bytes, length, arith,
}
use golang_jsonrpc.Stdio.Serve.Books.{total, total-one, total-concat, total-middle}
use golang_jsonrpc.Stdio.Serve.Accounted.{length-middle, total-empty, cons_split}
use golang_jsonrpc.Ws.Serve.{
  WsServer, Pc, reading, draining, returned, holding, WsConn, connected, ws_write, ws_respond,
  call_ended, Step, reads, read_fails, spawns, answers, pushes, cancels, returns, Run, here, next,
}

abbrev held : Pc → List Bytes
held (holding b) = b ∷ []
held _ = []

abbrev Settled : Pc → List Bytes → Type 0
Settled returned in_flight = in_flight ≡ []
Settled _ in_flight = Unit

-- What writes leave as it is.
abbrev ledger : WsConn → List Bytes × List Bytes × List Bytes
ledger c = (c.inbound, c.in_flight, c.handled)

ws_write-ledger :
    (written : Bool) (b : Bytes) (c : WsConn) → ledger (ws_write written b c) ≡ ledger c
unfolding ws_write
ws_write-ledger true b c = refl
ws_write-ledger false b c = refl

ws_respond-ledger :
    (written : Bool) (o : Option Bytes) (c : WsConn) → ledger (ws_respond written o c) ≡ ledger c
unfolding ws_respond
ws_respond-ledger written none c = refl
ws_respond-ledger written (some []) c = refl
ws_respond-ledger written (some (b ∷ resp)) c = ws_write-ledger written (b ∷ resp) c

module _ (h : WsServer) (messages : List Bytes) where
  -- The messages that were read, of which each is handled, in flight, or held by the loop.
  pub record Accounted (p : Pc) (l : List Bytes × List Bytes × List Bytes) : Type 0 where
    pub taken : List Bytes
    pub order : messages ≡ taken ++ l.0
    pub balanced : (f : Bytes → ℕ) → total f taken ≡ total f l.2 + total f l.1 + total f (held p)
    pub bounded : length l.1 ≤ h.max_calls
    pub settled : Settled p l.1

  append-Settled :
      (p : Pc) (l xs : List Bytes) (b : Bytes) (ys : List Bytes)
      → l ≡ xs ++ b ∷ ys
      → Settled p l
      → Settled p (xs ++ ys)
  append-Settled returned l xs b ys e s = absurd (cons_split xs b ys (sym e ∙ s))
  append-Settled reading l xs b ys e s = tt
  append-Settled draining l xs b ys e s = tt
  append-Settled (holding m) l xs b ys e s = tt

  -- A call ends.
  answered :
      (p : Pc) (inbound in_flight handled xs : List Bytes) (b : Bytes) (ys : List Bytes)
      → in_flight ≡ xs ++ b ∷ ys
      → Accounted p (inbound, in_flight, handled)
      → Accounted p (inbound, xs ++ ys, handled ++ b ∷ [])
  answered p inbound in_flight handled xs b ys e v = record {
    taken = v.taken;
    order = v.order;
    balanced = λ f.
        omega
          (arith, v.balanced f, ap (total f) e, total-middle f xs b ys, total-concat f handled b);
    bounded = omega (arith, v.bounded, ap length e, length-middle xs b ys);
    settled = append-Settled p in_flight xs b ys e v.settled;
  }

  -- A message is read.
  taken_one :
      (inbound in_flight handled : List Bytes) (b : Bytes) (rest : List Bytes)
      → inbound ≡ b ∷ rest
      → Accounted reading (inbound, in_flight, handled)
      → Accounted (holding b) (rest, in_flight, handled)
  taken_one inbound in_flight handled b rest e v = record {
    taken = v.taken ++ b ∷ [];
    order = v.order ∙ ap (λ l. v.taken ++ l) e ∙ sym (append_assoc v.taken (b ∷ []) rest);
    balanced =
        λ f. omega (arith, v.balanced f, total-concat f v.taken b, total-one f b, total-empty f);
    bounded = v.bounded;
    settled = tt;
  }

  spawned :
      (inbound in_flight handled : List Bytes) (b : Bytes)
      → length in_flight < h.max_calls
      → Accounted (holding b) (inbound, in_flight, handled)
      → Accounted reading (inbound, b ∷ in_flight, handled)
  spawned inbound in_flight handled b room v = record {
    taken = v.taken;
    order = v.order;
    balanced = λ f.
        omega (arith, v.balanced f, total-middle f [] b in_flight, total-one f b, total-empty f);
    bounded = omega (arith, room);
    settled = tt;
  }

  module _ (rpc : Bytes → Option Bytes) where
    Step-Accounted :
        {p : Pc} {c d : WsConn} {q : Pc}
        → Step h rpc p c q d
        → Accounted p (ledger c)
        → Accounted q (ledger d)
    unfolding call_ended
    Step-Accounted (reads c b rest e) v = taken_one c.inbound c.in_flight c.handled b rest e v
    Step-Accounted (read_fails c) v = record {
      taken = v.taken;
      order = v.order;
      balanced = v.balanced;
      bounded = v.bounded;
      settled = tt;
    }
    Step-Accounted (spawns c b room) v = spawned c.inbound c.in_flight c.handled b room v
    Step-Accounted (answers p c xs b ys written e) v =
        subst (λ l. Accounted p (l.0, xs ++ ys, l.2 ++ b ∷ []))
          (sym (ws_respond-ledger written (rpc b) c))
          (answered p c.inbound c.in_flight c.handled xs b ys e v)
    Step-Accounted (pushes p c b written) v =
        subst (Accounted p) (sym (ws_write-ledger written b c)) v
    Step-Accounted (cancels p c) v = v
    Step-Accounted (returns c e) v = record {
      taken = v.taken;
      order = v.order;
      balanced = v.balanced;
      bounded = v.bounded;
      settled = e;
    }

    start-Accounted : Accounted reading (ledger (connected messages))
    start-Accounted = record {
      taken = [];
      order = refl;
      balanced = λ f. omega (arith, total-empty f);
      bounded = omega arith;
      settled = tt;
    }

    Run-Accounted :
        {p q : Pc} {c d : WsConn}
        → Run h rpc p c q d
        → Accounted p (ledger c)
        → Accounted q (ledger d)
    Run-Accounted (here p c) v = v
    Run-Accounted (next r st) v = Step-Accounted st (Run-Accounted r v)

    -- The messages that were read are the first ones, and each was handled as often as it was read.
    pub record HandledAll (c : WsConn) : Type 0 where
      pub taken : List Bytes
      pub order : messages ≡ taken ++ c.inbound
      pub each : (f : Bytes → ℕ) → total f taken ≡ total f c.handled
      pub none_left : c.in_flight ≡ []

    -- When the WebSocket server returns, each message that it has read has been handled exactly once
    -- and no call is left, however its goroutines were interleaved and whatever writes have failed.
    pub Run-HandledAll :
        {c : WsConn} → Run h rpc reading (connected messages) returned c → HandledAll c
    unfolding total
    Run-HandledAll {c} run = handled_all (Run-Accounted run start-Accounted)
      where
        handled_all : Accounted returned (ledger c) → HandledAll c
        handled_all v = record {
          taken = v.taken;
          order = v.order;
          each = λ f. omega (arith, v.balanced f, ap (total f) v.settled);
          none_left = v.settled;
        }

    -- At no time are more calls in flight than the server has slots.
    pub Run-WithinSlots :
        {p : Pc} {c : WsConn}
        → Run h rpc reading (connected messages) p c
        → length c.in_flight ≤ h.max_calls
    Run-WithinSlots run = (Run-Accounted run start-Accounted).bounded
