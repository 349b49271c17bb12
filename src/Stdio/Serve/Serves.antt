-- ===== src/Stdio/Serve/Serves.antt =====
-- `Serve` on a stream of messages, with one call at a time and an output that takes every byte.
use golang_jsonrpc.Prelude.{
  ◌≡◌, refl, ap, ◌∙◌, subst, Bool, true, false, List, [], ◌∷◌, Option, none, some, Bytes, All,
  if◌then◌else◌,
}
use golang_jsonrpc.Stdio.Stream.{eof, frame, clean_eof}
use golang_jsonrpc.Stdio.Serve.{
  Server, framer_read, framer_write, nil, at_top, returned, reply, Conn, start, whole, put,
  put_framed, write, respond, stop_reading, result_of, ended,
}
use golang_jsonrpc.Stdio.Serve.Run.{
  goes_on, gets, meets_end, takes_over, answers_inline, returns, Run, here, next,
}
use golang_jsonrpc.Stdio.Serve.Books.{respond-books}
use golang_jsonrpc.Stdio.Serve.Replies.{replies, replies_to, either}
use golang_jsonrpc.Stdio.Serve.Ordered.{Fits, sent, reads_back, framer_nothing, Run-replies}

-- Nothing has gone wrong, and no goroutine runs.
record Calm (c : Conn) : Type 0 where
  canceled : c.canceled ≡ false
  ctx : c.ctx_canceled ≡ false
  healthy : c.conn_err ≡ none
  idle : c.in_flight ≡ []

put-Calm : (o : Option Bytes) (c : Conn) → Calm c → Calm (put_framed reply whole o c)
unfolding put_framed put
put-Calm none c h = h
put-Calm (some b) c h = record {
  canceled = h.canceled;
  ctx = h.ctx;
  healthy = h.healthy;
  idle = h.idle;
}

respond-Calm : (s : Server) (o : Option Bytes) (c : Conn) → Calm c → Calm (respond s whole o c)
unfolding respond write
respond-Calm s none c h = h
respond-Calm s (some []) c h = h
respond-Calm s (some (b ∷ resp)) c h =
    either Calm c.writer_closed c _ (λ _. h) (put-Calm (framer_write s (b ∷ resp)) c h)

ended-Calm :
    (s : Server) (o : Option Bytes) (b : Bytes) (c : Conn)
    → Calm c
    → Calm (respond s whole o c)
    → Calm (ended b c.in_flight (respond s whole o c))
unfolding ended
ended-Calm s o b c h k = record {
  canceled = k.canceled;
  ctx = k.ctx;
  healthy = k.healthy;
  idle = h.idle;
}

if_false : {A : Type 0} (b : Bool) (x y : A) → b ≡ false → (if b then x else y) ≡ y
if_false b x y h = rw h refl

clean_nil : (c : Conn) → c.conn_err ≡ none → result_of (record c { eof_clean = true }) ≡ nil
unfolding result_of
clean_nil c h = rw h refl

module _ (s : Server) (rpc : Bytes → Option Bytes) (slots : s.max_calls ≡ 1) where
  -- The connection is calm before the messages that are left.
  record Before (c : Conn) (ms : List Bytes) (d : Conn) : Type 0 where
    run : Run s eof rpc at_top c at_top d
    calm : Calm d
    rest : d.stream ≡ sent s ms

  one_more :
      (c d : Conn) (m : Bytes) (ms : List Bytes)
      → Fits s m
      → Before c (m ∷ ms) d
      → Before c ms (
          ended m d.in_flight
            (respond s whole (rpc m) (record d { started = true; stream = sent s ms })))
  unfolding sent ended
  one_more c d m ms h v = record {
    run =
        next
          (next (next (next v.run (goes_on d v.calm.canceled)) (gets d m (sent s ms) read))
            (takes_over e m slots))
          (answers_inline e m whole);
    calm = ended-Calm s (rpc m) m e calm (respond-Calm s (rpc m) e calm);
    rest = ap (λ a. a.stream) (respond-books s whole (rpc m) e);
  }
    where
      e : Conn
      e = record d { started = true; stream = sent s ms }

      calm : Calm e
      calm = record {
        canceled = v.calm.canceled;
        ctx = v.calm.ctx;
        healthy = v.calm.healthy;
        idle = v.calm.idle;
      }

      read : framer_read s d.started eof d.stream ≡ some (frame m (sent s ms))
      read = ap (framer_read s d.started eof) v.rest ∙ reads_back s eof d.started m (sent s ms) h

  -- Some connection in which all of the messages have been read.
  read_through :
      (c : Conn) (ms : List Bytes) (d : Conn)
      → All (Fits s) ms
      → Before c ms d
      → (e : Conn) × Before c [] e
  read_through c [] d h v = (d, v)
  read_through c (m ∷ ms) d h v = read_through c ms _ h.1 (one_more c d m ms h.0 v)

  end_result : (c : Conn) → Calm c → result_of (stop_reading clean_eof c) ≡ nil
  unfolding stop_reading
  end_result c h = ap result_of (if_false c.ctx_canceled _ _ h.ctx) ∙ clean_nil c h.healthy

  end_idle : (c : Conn) → Calm c → (stop_reading clean_eof c).in_flight ≡ []
  unfolding stop_reading
  end_idle c h = either (λ d. d.in_flight ≡ []) c.ctx_canceled _ _ (λ _. h.idle) h.idle

  ending_run :
      (c d : Conn)
      → Before c [] d
      → Run s eof rpc at_top c
          (returned nil)
          (record (stop_reading clean_eof d) { writer_closed = true })
  unfolding sent
  ending_run c d v =
      subst
        (λ r.
          Run s eof rpc at_top c (returned r)
            (record (stop_reading clean_eof d) { writer_closed = true }))
        (end_result d v.calm)
        (next (next (next v.run (goes_on d v.calm.canceled)) (meets_end d read_end))
          (returns (stop_reading clean_eof d) (end_idle d v.calm)))
    where
      read_end : framer_read s d.started eof d.stream ≡ some clean_eof
      read_end =
          ap (framer_read s d.started eof) v.rest
          ∙ framer_nothing s.framing s.max_message_size s.max_calls d.started eof

  -- One call at a time: on the frames that a peer has written for some messages, all of which the
  -- framing can carry, `Serve` can run to its end, return nil and leave on its output the replies
  -- to all of the messages, in their order.
  pub serves :
      (ms : List Bytes)
      → All (Fits s) ms
      → (c : Conn) × Run s eof rpc at_top (start (sent s ms)) (returned nil) c
        × (replies c.wire ≡ replies_to s rpc ms)
  serves ms h = finish (read_through (start (sent s ms)) ms (start (sent s ms)) h begins)
    where
      begins : Before (start (sent s ms)) ms (start (sent s ms))
      begins = record {
        run = here at_top (start (sent s ms));
        calm = record { canceled = refl; ctx = refl; healthy = refl; idle = refl };
        rest = refl;
      }

      finish :
          (d : Conn) × Before (start (sent s ms)) [] d
          → (c : Conn) × Run s eof rpc at_top (start (sent s ms)) (returned nil) c
            × (replies c.wire ≡ replies_to s rpc ms)
      finish (d, v) = (_, ending_run _ d v, Run-replies s eof rpc ms slots h (ending_run _ d v))
