-- ===== src/Stdio/Serve/Result.antt =====
-- What holds of `Serve` in every run from the start of a stream.
use golang_jsonrpc.Prelude.{ℕ, ◌≤◌, ◌≡◌, ap, arith, true, List, [], Option, Bytes}
use golang_jsonrpc.Stdio.Stream.{Ending}
use golang_jsonrpc.Stdio.Serve.{Server, ServeResult, nil, Pc, at_top, returned, Conn, start}
use golang_jsonrpc.Stdio.Serve.Run.{Run}
use golang_jsonrpc.Stdio.Serve.Books.{books, total, Reads, Accounted}
use golang_jsonrpc.Stdio.Serve.Accounted.{start-Accounted, Run-Accounted}
use golang_jsonrpc.Stdio.Serve.Replies.{replies, replies_to}
use golang_jsonrpc.Stdio.Serve.Wired.{Wired, start-Wired, Run-Wired}

-- Every frame that was read has been answered, each as often as it was read, and the replies are on
-- the output.
pub record Answered (s : Server) (ending : Ending) (rpc : Bytes → Option Bytes) (stream : Bytes)
    (c : Conn) : Type 0 where
  pub frames : List Bytes
  pub reads : Reads s ending stream frames c.started c.stream
  pub each : (f : Bytes → ℕ) → total f frames ≡ total f c.answered
  pub written : replies c.wire ≡ replies_to s rpc c.answered

module _ (s : Server) (ending : Ending) (rpc : Bytes → Option Bytes) (stream : Bytes)
    (slots : 1 ≤ s.max_calls) where
  pub run-Wired :
      {p : Pc} {c : Conn} → Run s ending rpc at_top (start stream) p c → Wired s ending rpc p c
  run-Wired run = Run-Wired s ending rpc run (start-Wired s ending rpc stream)

  pub run-Accounted :
      {p : Pc} {c : Conn}
      → Run s ending rpc at_top (start stream) p c
      → Accounted s ending stream p (books c)
  run-Accounted run = Run-Accounted s ending stream rpc run (start-Accounted s ending stream slots)

  answered :
      {c : Conn} {r : ServeResult}
      → Wired s ending rpc (returned r) c
      → Accounted s ending stream (returned r) (books c)
      → (c.in_flight ≡ []) × (c.writer_closed ≡ true) × (r ≡ nil → Answered s ending rpc stream c)
  unfolding total
  answered w v = (
    w.now.0,
    w.now.1,
    λ e. record {
      frames = v.frames;
      reads = v.reads;
      each = λ f. omega (arith, v.balanced f, ap (total f) w.now.0, ap (total f) (w.now.2 e).1);
      written = w.kept (w.now.2 e).0;
    },
  )

  -- With at least one slot: when `Serve` returns, no call is in flight and the writer is closed, and
  -- if it returns nil, then every frame that it read has been answered exactly once, and the
  -- replies that it wrote are those to the frames answered, in the order in which their calls ended.
  pub Run-Answered :
      {c : Conn} {r : ServeResult}
      → Run s ending rpc at_top (start stream) (returned r) c
      → (c.in_flight ≡ []) × (c.writer_closed ≡ true) × (r ≡ nil → Answered s ending rpc stream c)
  Run-Answered {c} {r} run = answered (run-Wired run) (run-Accounted run)
