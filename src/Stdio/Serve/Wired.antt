-- ===== src/Stdio/Serve/Wired.antt =====
-- Every step of `Serve` keeps the account of the replies on the wire and of the reason to end.
use golang_jsonrpc.Prelude.{
  ◌≡◌, ◌≢◌, refl, sym, ap, ◌∙◌, subst, Bool, true, false, List, [], ◌∷◌, ◌++◌, append-nil, Option,
  none, some, Bytes, if◌then◌else◌,
}
use golang_jsonrpc.Stdio.Stream.{Ending, FrameError, clean_eof, fatal}
use golang_jsonrpc.Stdio.Serve.{
  Server, ConnError, internal_panic, ServeResult, nil, conn_failed, context_ended, read_stopped, Pc,
  at_top, in_read, draining, acquiring, inline, returned, push, Conn, start, first_error, fail, Io,
  write, respond, stop_reading, result_of, ended,
}
use golang_jsonrpc.Stdio.Serve.Run.{
  Step, goes_on, stops, gets, meets_end, fails_to_read, takes_over, answers_inline, panics_inline,
  spawns, gives_up, answers, panics, pushes, cancels, returns, Run, here, next,
}
use golang_jsonrpc.Stdio.Serve.Books.{respond-books, write-books}
use golang_jsonrpc.Stdio.Serve.Accounted.{cons_split}
use golang_jsonrpc.Stdio.Serve.Replies.{
  replies, replies_to, reply_to, replies_to-concat, Adds, Latch, either, first_error_some,
  respond-Adds, write-push-Adds,
}
use golang_jsonrpc.Stdio.Serve.Grows.{
  Why, Grows, write-Grows, write-closed, ended-Grows, panic-Grows, cancel-Grows,
}

-- The loop that is still reading has given up a frame only to a failure.
abbrev Reading : Conn → Type 0
Reading c = (c.eof_clean ≡ false) × (c.conn_err ≡ none → c.dropped ≡ [])

-- The loop has a reason to end, and a clean end loses no frame.
abbrev Stopped : Conn → Type 0
Stopped c =
    (c.conn_err ≡ none → c.eof_clean ≡ false → c.ctx_canceled ≡ false → c.read_err ≢ none)
    × (c.conn_err ≡ none → c.eof_clean ≡ true → c.dropped ≡ [])

abbrev Done : ServeResult → Conn → Type 0
Done r c =
    (c.in_flight ≡ [])
    × (c.writer_closed ≡ true)
    × (r ≡ nil → (c.conn_err ≡ none) × (c.dropped ≡ []) × (c.eof_clean ≡ true))

abbrev pub Now : Pc → Conn → Type 0
Now draining c = Latch c × Stopped c
Now (returned r) c = Done r c
Now _ c = Latch c × Why c × Reading c

Reading-Grows : (c d : Conn) → Grows c d → Reading c → Reading d
Reading-Grows c d g h = (g.eof ∙ h.0, λ k. g.kept k ∙ h.1 (g.unfailed k))

Stopped-Grows : (c d : Conn) → Grows c d → Stopped c → Stopped d
Stopped-Grows c d g h = (
  (λ k e x r. h.0 (g.unfailed k) (sym g.eof ∙ e) (g.ctx x) (sym g.read ∙ r)),
  λ k e. g.kept k ∙ h.1 (g.unfailed k) (sym g.eof ∙ e),
)

-- What happens at any time, as long as a connection that has ended stays as it is.
Now-Grows :
    (p : Pc) (c d : Conn)
    → Grows c d
    → ((r : ServeResult) → p ≡ returned r → Done r c → Done r d)
    → Now p c
    → Now p d
Now-Grows at_top c d g k (l, w, h) = (g.latched l, g.why w, Reading-Grows c d g h)
Now-Grows in_read c d g k (l, w, h) = (g.latched l, g.why w, Reading-Grows c d g h)
Now-Grows draining c d g k (l, h) = (g.latched l, Stopped-Grows c d g h)
Now-Grows (acquiring b) c d g k (l, w, h) = (g.latched l, g.why w, Reading-Grows c d g h)
Now-Grows (inline b) c d g k (l, w, h) = (g.latched l, g.why w, Reading-Grows c d g h)
Now-Grows (returned r) c d g k h = k r refl h

Now-Latch : (p : Pc) (c : Conn) → c.in_flight ≢ [] → Now p c → Latch c
Now-Latch at_top c n h = h.0
Now-Latch in_read c n h = h.0
Now-Latch draining c n h = h.0
Now-Latch (acquiring b) c n h = h.0
Now-Latch (inline b) c n h = h.0
Now-Latch (returned r) c n h = absurd (n h.0)

-- A read that gives no frame gives the loop a reason to end.
end-Now : (c : Conn) → Now in_read c → Now draining (stop_reading clean_eof c)
unfolding stop_reading
end-Now c (l, w, (e, k)) =
    either (Now draining) c.ctx_canceled (record c { canceled = true })
      (record c { eof_clean = true }) (λ t. (l, ((λ _ _ f. cc), λ j _. k j)))
      (l, ((λ _ f. cc), λ j _. k j))

fatal-Now : (x : FrameError) (c : Conn) → Now in_read c → Now draining (stop_reading (fatal x) c)
unfolding stop_reading
fatal-Now x c (l, w, (e, k)) = (l, ((λ _ _ _ f. cc), λ j _. k j))

-- The result is nil only for a clean end.
nil_only :
    (o : Option ConnError) (eof ctx : Bool) (re : Option FrameError)
    → (o ≡ none → eof ≡ false → ctx ≡ false → re ≢ none)
    → (elim o [
      | some e ↦ conn_failed e
      | none ↦
          if eof
          then nil
          else if ctx
          then context_ended
          else elim re [ some e ↦ read_stopped e | none ↦ nil ]
    ])
      ≡ nil
    → (o ≡ none) × (eof ≡ true)
nil_only (some e) eof ctx re k h = absurd (cc)
nil_only none true ctx re k h = (refl, refl)
nil_only none false true re k h = absurd cc
nil_only none false false (some e) k h = absurd cc
nil_only none false false none k h = absurd (k refl refl refl refl)

result-nil :
    (c : Conn)
    → Stopped c
    → result_of c ≡ nil
    → (c.conn_err ≡ none) × (c.dropped ≡ []) × (c.eof_clean ≡ true)
unfolding result_of
result-nil c (w, k) h = (e.0, k e.0 e.1, e.1)
  where
    e : (c.conn_err ≡ none) × (c.eof_clean ≡ true)
    e = nil_only c.conn_err c.eof_clean c.ctx_canceled c.read_err w h

true_is_not : true ≢ false
true_is_not e = cc

not_returned : {A : Type 0} {r : ServeResult} → at_top ≡ returned r → A
not_returned e = absurd cc

module _ (s : Server) (ending : Ending) (rpc : Bytes → Option Bytes) where
  -- Unless the connection has failed, its replies are those to the frames answered.
  abbrev pub Kept : Conn → Type 0
  Kept c = c.conn_err ≡ none → replies c.wire ≡ replies_to s rpc c.answered

  pub record Wired (p : Pc) (c : Conn) : Type 0 where
    pub kept : Kept c
    pub now : Now p c

  pub start-Wired : (stream : Bytes) → Wired at_top (start stream)
  unfolding replies replies_to
  start-Wired stream = record { kept = λ _. refl; now = ((λ e. cc), (λ e. cc), (refl, λ _. refl)) }

  answered-Kept :
      (c : Conn) (b : Bytes) (rest : List Bytes) (io : Io)
      → Latch c
      → Kept c
      → Kept (ended b rest (respond s io (rpc b) c))
  unfolding ended
  answered-Kept c b rest io l k h =
      (adds h).1
      ∙ ap (λ w. w ++ reply_to s (rpc b)) (k (adds h).0)
      ∙ sym (replies_to-concat s rpc c.answered b)
      ∙ ap (λ a. replies_to s rpc (a.answered ++ b ∷ [])) (sym (respond-books s io (rpc b) c))
    where
      adds : Adds (reply_to s (rpc b)) c (respond s io (rpc b) c)
      adds = respond-Adds s io (rpc b) c l

  pushed-Kept : (c : Conn) (io : Io) (body : Bytes) → Kept c → Kept (write push s io body c)
  pushed-Kept c io body k h =
      (adds h).1
      ∙ append-nil (replies c.wire)
      ∙ k (adds h).0
      ∙ ap (λ a. replies_to s rpc a.answered) (sym (write-books push s io body c))
    where
      adds : Adds [] c (write push s io body c)
      adds = write-push-Adds s io body c

  end-Kept : (c : Conn) → Kept c → Kept (stop_reading clean_eof c)
  unfolding stop_reading
  end-Kept c k =
      either Kept c.ctx_canceled (record c { canceled = true }) (record c { eof_clean = true })
        (λ _. k) k

  fatal-Kept : (c : Conn) (e : FrameError) → Kept c → Kept (stop_reading (fatal e) c)
  unfolding stop_reading
  fatal-Kept c e k = k

  -- The frame of a goroutine is in flight, so the connection has not ended.
  not_over :
      (c : Conn) (xs : List Bytes) (b : Bytes) (ys : List Bytes)
      → c.in_flight ≡ xs ++ b ∷ ys
      → c.in_flight ≢ []
  not_over c xs b ys h e = cons_split xs b ys (sym h ∙ e)

  -- The loop ends because its connection has been canceled.
  canceled-Now :
      (c : Conn) (lost : List Bytes)
      → c.canceled ≡ true
      → Now at_top c
      → Now draining (record c { dropped = lost })
  canceled-Now c lost h (l, w, (e, k)) =
      (l, ((λ j _ x _. true_is_not (sym (w h j) ∙ x)), λ _ t. absurd (true_is_not (sym t ∙ e))))

  returned-Done :
      (c : Conn)
      → c.in_flight ≡ []
      → Wired draining c
      → Done (result_of c) (record c { writer_closed = true })
  returned-Done c h v = (h, refl, result-nil c v.now.1)

  -- A panic ends the connection, wherever the loop is.
  panicked :
      (p : Pc) (c : Conn) (rest lost : List Bytes) (text : Bytes)
      → c.in_flight ≢ []
      → Wired p c
      → Wired p (record (fail (internal_panic text) c) { in_flight = rest; dropped = lost })
  unfolding fail
  panicked p c rest lost text n v = record {
    kept = λ k. absurd (first_error_some c.conn_err (internal_panic text) k);
    now = Now-Grows p c _ (panic-Grows text rest lost c) (λ r e d. absurd (n d.0)) v.now;
  }

  panicked_inline :
      (c : Conn) (b text : Bytes) (lost : List Bytes)
      → Wired (inline b) c
      → Wired draining (record (fail (internal_panic text) c) { dropped = lost })
  unfolding fail
  panicked_inline c b text lost v = record {
    kept = λ k. absurd (f k);
    now = ((λ _. f), ((λ k. absurd (f k)), λ k. absurd (f k)));
  }
    where
      f : first_error c.conn_err (internal_panic text) ≢ none
      f = first_error_some c.conn_err (internal_panic text)

  pub Step-Wired :
      {p : Pc} {c d : Conn} {q : Pc} → Step s ending rpc p c q d → Wired p c → Wired q d
  Step-Wired (goes_on c h) v = record { kept = v.kept; now = v.now }
  Step-Wired (stops c h) v = record { kept = v.kept; now = canceled-Now c c.dropped h v.now }
  Step-Wired (gets c b rest h) v = record { kept = v.kept; now = v.now }
  Step-Wired (meets_end c h) v = record { kept = end-Kept c v.kept; now = end-Now c v.now }
  Step-Wired (fails_to_read c e h) v = record {
    kept = fatal-Kept c e v.kept;
    now = fatal-Now e c v.now;
  }
  Step-Wired (takes_over c b h) v = record { kept = v.kept; now = v.now }
  Step-Wired (answers_inline c b io) v = record {
    kept = answered-Kept c b c.in_flight io v.now.0 v.kept;
    now =
        Now-Grows at_top c _ (ended-Grows s io (rpc b) b c.in_flight c) (λ r e _. not_returned e)
          v.now;
  }
  Step-Wired (panics_inline c b text) v = panicked_inline c b text (c.dropped ++ b ∷ []) v
  Step-Wired (spawns c b n room) v = record { kept = v.kept; now = v.now }
  Step-Wired (gives_up c b n h) v = record {
    kept = v.kept;
    now = canceled-Now c (c.dropped ++ b ∷ []) h v.now;
  }
  Step-Wired (answers p c xs b ys io h) v = record {
    kept = answered-Kept c b (xs ++ ys) io (Now-Latch p c (not_over c xs b ys h) v.now) v.kept;
    now =
        Now-Grows p c _ (ended-Grows s io (rpc b) b (xs ++ ys) c)
          (λ r e d. absurd (not_over c xs b ys h d.0)) v.now;
  }
  Step-Wired (panics p c xs b ys text h) v =
      panicked p c (xs ++ ys) (c.dropped ++ b ∷ []) text (not_over c xs b ys h) v
  Step-Wired (pushes p c body io) v = record {
    kept = pushed-Kept c io body v.kept;
    now =
        Now-Grows p c _ (write-Grows push s io body c)
          (λ r e d. subst (Done r) (sym (write-closed push s io body c d.1)) d) v.now;
  }
  Step-Wired (cancels p c) v = record {
    kept = v.kept;
    now = Now-Grows p c _ (cancel-Grows c) (λ r e d. d) v.now;
  }
  Step-Wired (returns c h) v = record { kept = v.kept; now = returned-Done c h v }

  pub Run-Wired : {p q : Pc} {c d : Conn} → Run s ending rpc p c q d → Wired p c → Wired q d
  Run-Wired (here p c) v = v
  Run-Wired (next r st) v = Step-Wired st (Run-Wired r v)
