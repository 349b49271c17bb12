-- ===== src/Stdio/Serve/Clean.antt =====
-- `Serve` takes an end for a clean one only where the framer says so.
use golang_jsonrpc.Prelude.{
  ◌≡◌, refl, sym, ◌∙◌, subst, Bool, true, false, List, ◌++◌, Option, some, Bytes,
}
use golang_jsonrpc.Stdio.Stream.{Ending, FrameError, clean_eof, fatal}
use golang_jsonrpc.Stdio.Serve.{
  Server, framer_read, Pc, at_top, push, Conn, start, fail, write, respond, stop_reading, ended, Io,
}
use golang_jsonrpc.Stdio.Serve.Run.{
  Step, goes_on, stops, gets, meets_end, fails_to_read, takes_over, answers_inline, panics_inline,
  spawns, gives_up, answers, panics, pushes, cancels, returns, Run, here, next,
}
use golang_jsonrpc.Stdio.Serve.Books.{Books, books, write-books, respond-books}
use golang_jsonrpc.Stdio.Serve.Replies.{either}
use golang_jsonrpc.Stdio.Serve.Grows.{write-Grows, respond-Grows}
use golang_jsonrpc.Stdio.Serve.Wired.{Wired, start-Wired, Step-Wired}

module _ (s : Server) (ending : Ending) where
  unfoldable pub AtEnd : Books → Type 0
  AtEnd a = framer_read s a.started ending a.stream ≡ some clean_eof

  -- A clean end was one of the stream.
  abbrev pub Clean : Conn → Type 0
  Clean c = c.eof_clean ≡ true → AtEnd (books c)

  end-Clean : (c : Conn) → AtEnd (books c) → Clean (stop_reading clean_eof c)
  unfolding stop_reading
  end-Clean c h =
      either Clean c.ctx_canceled (record c { canceled = true }) (record c { eof_clean = true })
        (λ _ _. h) (λ _. h)

  same-Clean : (c d : Conn) → d.eof_clean ≡ c.eof_clean → books d ≡ books c → Clean c → Clean d
  same-Clean c d e h k t = subst AtEnd (sym h) (k (sym e ∙ t))

  ended-Clean : (b : Bytes) (rest : List Bytes) (d : Conn) → Clean d → Clean (ended b rest d)
  unfolding ended AtEnd
  ended-Clean b rest d k = k

  answer-Clean :
      (io : Io) (o : Option Bytes) (b : Bytes) (rest : List Bytes) (c : Conn)
      → Clean c
      → Clean (ended b rest (respond s io o c))
  answer-Clean io o b rest c k =
      ended-Clean b rest (respond s io o c)
        (same-Clean c (respond s io o c) (respond-Grows s io o c).eof (respond-books s io o c) k)

  fails-Clean : (c : Conn) (e : FrameError) → Clean c → Clean (stop_reading (fatal e) c)
  unfolding stop_reading
  fails-Clean c e k = k

  unclean : {A : Type 0} {b : Bool} → b ≡ false → b ≡ true → A
  unclean h t = absurd cc

  module _ (rpc : Bytes → Option Bytes) where
    Step-Clean :
        {p : Pc} {c d : Conn} {q : Pc}
        → Step s ending rpc p c q d
        → Wired s ending rpc p c
        → Clean c
        → Clean d
    unfolding fail AtEnd
    Step-Clean (goes_on c h) w k = k
    Step-Clean (stops c h) w k = k
    Step-Clean (gets c b rest h) w k = λ t. unclean w.now.2.0 t
    Step-Clean (meets_end c h) w k = end-Clean c h
    Step-Clean (fails_to_read c e h) w k = fails-Clean c e k
    Step-Clean (takes_over c b h) w k = k
    Step-Clean (answers_inline c b io) w k = answer-Clean io (rpc b) b c.in_flight c k
    Step-Clean (panics_inline c b text) w k = k
    Step-Clean (spawns c b n room) w k = k
    Step-Clean (gives_up c b n h) w k = k
    Step-Clean (answers p c xs b ys io h) w k = answer-Clean io (rpc b) b (xs ++ ys) c k
    Step-Clean (panics p c xs b ys text h) w k = k
    Step-Clean (pushes p c body io) w k =
        same-Clean c (write push s io body c) (write-Grows push s io body c).eof
          (write-books push s io body c) k
    Step-Clean (cancels p c) w k = k
    Step-Clean (returns c h) w k = k

    next-Clean :
        {p : Pc} {c d : Conn} {q : Pc}
        → Step s ending rpc p c q d
        → Wired s ending rpc p c × Clean c
        → Wired s ending rpc q d × Clean d
    next-Clean st (w, k) = (Step-Wired s ending rpc st w, Step-Clean st w k)

    Run-Clean :
        {p q : Pc} {c d : Conn}
        → Run s ending rpc p c q d
        → Wired s ending rpc p c × Clean c
        → Wired s ending rpc q d × Clean d
    Run-Clean (here p c) v = v
    Run-Clean (next r st) v = next-Clean st (Run-Clean r v)

    pub run-Clean :
        (stream : Bytes) {p : Pc} {c : Conn} → Run s ending rpc at_top (start stream) p c → Clean c
    run-Clean stream run = (Run-Clean run (start-Wired s ending rpc stream, λ t. unclean refl t)).1
