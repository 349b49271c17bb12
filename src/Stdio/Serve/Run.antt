-- ===== src/Stdio/Serve/Run.antt =====
-- The steps of `Serve` and of its environment, from a position of the read loop to the next.
use golang_jsonrpc.Prelude.{
  ◌<◌, ◌≡◌, ◌≢◌, true, false, List, [], ◌∷◌, ◌++◌, Option, some, Bytes, length,
}
use golang_jsonrpc.Stdio.Stream.{Ending, FrameError, frame, clean_eof, fatal}
use golang_jsonrpc.Stdio.Serve.{
  Server, framer_read, internal_panic, Pc, at_top, in_read, draining, acquiring, inline, returned,
  push, Conn, fail, Io, write, respond, stop_reading, result_of, ended,
}

-- The slots, the WaitGroup and the goroutines of the calls are one list, `in_flight`: a call takes
-- its slot as it is started and gives it back as it ends. Reads, writes and the dispatcher take one
-- step each; that one of them blocks is that its step is not taken.
-- `rpc` is the dispatcher, and `ending` how the input ends.
module _ (s : Server) (ending : Ending) (rpc : Bytes → Option Bytes) where
  pub data Step : Pc → Conn → Pc → Conn → Type 0 where
    -- the check of the connection's context at the top of the loop
    goes_on : (c : Conn) → c.canceled ≡ false → Step at_top c in_read c
    stops : (c : Conn) → c.canceled ≡ true → Step at_top c draining c
    -- `ReadFrame`
    gets :
        (c : Conn) (b rest : Bytes)
        → framer_read s c.started ending c.stream ≡ some (frame b rest)
        → Step in_read c (acquiring b) (record c { started = true; stream = rest })
    meets_end :
        (c : Conn)
        → framer_read s c.started ending c.stream ≡ some clean_eof
        → Step in_read c draining (stop_reading clean_eof c)
    fails_to_read :
        (c : Conn) (e : FrameError)
        → framer_read s c.started ending c.stream ≡ some (fatal e)
        → Step in_read c draining (stop_reading (fatal e) c)
    -- one call at a time: the read loop dispatches by itself
    takes_over : (c : Conn) (b : Bytes) → s.max_calls ≡ 1 → Step (acquiring b) c (inline b) c
    answers_inline :
        (c : Conn) (b : Bytes) (io : Io)
        → Step (inline b) c at_top (ended b c.in_flight (respond s io (rpc b) c))
    panics_inline :
        (c : Conn) (b text : Bytes)
        → Step
            (inline b)
            c
            draining
            (record (fail (internal_panic text) c) { dropped = c.dropped ++ b ∷ [] })
    -- several calls: a slot, or the end of the connection
    spawns :
        (c : Conn) (b : Bytes)
        → s.max_calls ≢ 1
        → length c.in_flight < s.max_calls
        → Step (acquiring b) c at_top (record c { in_flight = b ∷ c.in_flight })
    gives_up :
        (c : Conn) (b : Bytes)
        → s.max_calls ≢ 1
        → c.canceled ≡ true
        → Step (acquiring b) c draining (record c { dropped = c.dropped ++ b ∷ [] })
    -- a goroutine ends, at any time
    answers :
        (p : Pc) (c : Conn) (xs : List Bytes) (b : Bytes) (ys : List Bytes) (io : Io)
        → c.in_flight ≡ xs ++ b ∷ ys
        → Step p c p (ended b (xs ++ ys) (respond s io (rpc b) c))
    panics :
        (p : Pc) (c : Conn) (xs : List Bytes) (b : Bytes) (ys : List Bytes) (text : Bytes)
        → c.in_flight ≡ xs ++ b ∷ ys
        → Step p c p (record (fail (internal_panic text) c) {
          in_flight = xs ++ ys;
          dropped = c.dropped ++ b ∷ [];
        })
    -- a handler, or a goroutine that it left behind, notifies the peer
    pushes : (p : Pc) (c : Conn) (body : Bytes) (io : Io) → Step p c p (write push s io body c)
    -- the caller's context ends
    cancels : (p : Pc) (c : Conn) → Step p c p (record c { ctx_canceled = true; canceled = true })
    -- the deferred exit, behind `wg.Wait`
    returns :
        (c : Conn)
        → c.in_flight ≡ []
        → Step draining c (returned (result_of c)) (record c { writer_closed = true })

  pub data Run : Pc → Conn → Pc → Conn → Type 0 where
    here : (p : Pc) (c : Conn) → Run p c p c
    next : {p q r : Pc} {c d e : Conn} → Run p c q d → Step q d r e → Run p c r e
