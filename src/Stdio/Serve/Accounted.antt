-- ===== src/Stdio/Serve/Accounted.antt =====
-- Every step of `Serve` keeps the books.
use golang_jsonrpc.Prelude.{
  ℕ, ◌+◌, ◌≤◌, ◌<◌, ◌≡◌, ◌≢◌, refl, sym, ap, ◌∙◌, subst, true, List, [], ◌∷◌, ◌++◌, append_assoc,
  append-nil, Option, some, Bytes, length, arith,
}
use golang_jsonrpc.Stdio.Stream.{Ending, frame, clean_eof, fatal}
use golang_jsonrpc.Stdio.Serve.{
  Server, framer_read, Pc, at_top, in_read, draining, acquiring, inline, Conn, start, fail, push,
  ended,
}
use golang_jsonrpc.Stdio.Serve.Run.{
  Step, goes_on, stops, gets, meets_end, fails_to_read, takes_over, answers_inline, panics_inline,
  spawns, gives_up, answers, panics, pushes, cancels, returns, Run, here, next,
}
use golang_jsonrpc.Stdio.Serve.Books.{
  Books, books, respond-books, write-books, stop-books, total, total-one, total-concat,
  total-middle, held, inline_calls, NoneDropped, unread, then_read, Accounted,
}

pub total-empty : (f : Bytes → ℕ) → total f [] ≡ 0
unfolding total
total-empty f = refl

pub cons_split : (xs : List Bytes) (b : Bytes) (ys : List Bytes) → xs ++ b ∷ ys ≢ []
cons_split [] b ys = λ e. cc
cons_split (x ∷ xs) b ys = λ e. cc

pub length-middle :
    (xs : List Bytes) (b : Bytes) (ys : List Bytes) → length (xs ++ b ∷ ys) ≡ 1 + length (xs ++ ys)
length-middle [] b ys = omega arith
length-middle (x ∷ xs) b ys = omega (arith, length-middle xs b ys)

read_one :
    (frames done lost : List Bytes) (b : Bytes)
    → frames ≡ done ++ (lost ++ [])
    → frames ++ b ∷ [] ≡ done ++ (lost ++ b ∷ [])
read_one frames done lost b h =
    ap (λ l. l ++ b ∷ []) h
    ∙ append_assoc done (lost ++ []) (b ∷ [])
    ∙ ap (λ l. done ++ l) (append_assoc lost [] (b ∷ []))

answer_one :
    (done lost : List Bytes) (b : Bytes)
    → lost ≡ []
    → done ++ (lost ++ b ∷ []) ≡ (done ++ b ∷ []) ++ (lost ++ [])
answer_one done lost b h = rw h (sym (append-nil (done ++ b ∷ [])))

module _ (s : Server) (ending : Ending) (stream : Bytes) where
  abbrev pub V : Pc → Books → Type 0
  V = Accounted s ending stream

  pub start-Accounted : 1 ≤ s.max_calls → V at_top (books (start stream))
  start-Accounted h = record {
    frames = [];
    reads = unread;
    balanced = λ f. omega (arith, total-empty f);
    bounded = omega arith;
    alone = λ e. refl;
    ordered = λ e. refl;
    none_dropped = λ e. refl;
  }

  -- A frame is read.
  got :
      (a : Books) (b rest : Bytes)
      → framer_read s a.started ending a.stream ≡ some (frame b rest)
      → V in_read a
      → V (acquiring b) (record a { started = true; stream = rest })
  got a b rest h v = record {
    frames = v.frames ++ b ∷ [];
    reads = then_read b rest v.reads h;
    balanced =
        λ f. omega (arith, v.balanced f, total-concat f v.frames b, total-one f b, total-empty f);
    bounded = v.bounded;
    alone = v.alone;
    ordered = λ e. read_one v.frames a.answered a.dropped b (v.ordered e);
    none_dropped = v.none_dropped;
  }

  -- A call on the read loop ends.
  answered_inline :
      (a : Books) (b : Bytes)
      → V (inline b) a
      → V at_top (record a { answered = a.answered ++ b ∷ [] })
  answered_inline a b v = record {
    frames = v.frames;
    reads = v.reads;
    balanced =
        λ f. omega (arith, v.balanced f, total-concat f a.answered b, total-one f b, total-empty f);
    bounded = omega (arith, v.bounded);
    alone = v.alone;
    ordered = λ e. v.ordered e ∙ answer_one a.answered a.dropped b (v.none_dropped e);
    none_dropped = v.none_dropped;
  }

  -- A goroutine's call ends.
  answered_one :
      (p : Pc) (a : Books) (xs : List Bytes) (b : Bytes) (ys : List Bytes)
      → a.in_flight ≡ xs ++ b ∷ ys
      → V p a
      → V p (record a { in_flight = xs ++ ys; answered = a.answered ++ b ∷ [] })
  answered_one p a xs b ys h v = record {
    frames = v.frames;
    reads = v.reads;
    balanced = λ f.
        omega (
          arith,
          v.balanced f,
          ap (total f) h,
          total-middle f xs b ys,
          total-concat f a.answered b,
        );
    bounded = omega (arith, v.bounded, ap length h, length-middle xs b ys);
    alone = λ e. absurd (cons_split xs b ys (sym h ∙ v.alone e));
    ordered = λ e. absurd (cons_split xs b ys (sym h ∙ v.alone e));
    none_dropped = λ e. absurd (cons_split xs b ys (sym h ∙ v.alone e));
  }

  dropped_one :
      (p : Pc) (a : Books) (xs : List Bytes) (b : Bytes) (ys : List Bytes)
      → a.in_flight ≡ xs ++ b ∷ ys
      → V p a
      → V p (record a { in_flight = xs ++ ys; dropped = a.dropped ++ b ∷ [] })
  dropped_one p a xs b ys h v = record {
    frames = v.frames;
    reads = v.reads;
    balanced = λ f.
        omega
          (arith, v.balanced f, ap (total f) h, total-middle f xs b ys, total-concat f a.dropped b);
    bounded = omega (arith, v.bounded, ap length h, length-middle xs b ys);
    alone = λ e. absurd (cons_split xs b ys (sym h ∙ v.alone e));
    ordered = λ e. absurd (cons_split xs b ys (sym h ∙ v.alone e));
    none_dropped = λ e. absurd (cons_split xs b ys (sym h ∙ v.alone e));
  }

  -- The read loop gives up the frame that it holds.
  dropped_inline :
      (a : Books) (b : Bytes)
      → V (inline b) a
      → V draining (record a { dropped = a.dropped ++ b ∷ [] })
  dropped_inline a b v = record {
    frames = v.frames;
    reads = v.reads;
    balanced =
        λ f. omega (arith, v.balanced f, total-concat f a.dropped b, total-one f b, total-empty f);
    bounded = omega (arith, v.bounded);
    alone = v.alone;
    ordered = λ e. v.ordered e ∙ sym (ap (λ l. a.answered ++ l) (append-nil (a.dropped ++ b ∷ [])));
    none_dropped = λ e. tt;
  }

  dropped_acquiring :
      (a : Books) (b : Bytes)
      → s.max_calls ≢ 1
      → V (acquiring b) a
      → V draining (record a { dropped = a.dropped ++ b ∷ [] })
  dropped_acquiring a b n v = record {
    frames = v.frames;
    reads = v.reads;
    balanced =
        λ f. omega (arith, v.balanced f, total-concat f a.dropped b, total-one f b, total-empty f);
    bounded = v.bounded;
    alone = v.alone;
    ordered = λ e. absurd (n e);
    none_dropped = λ e. tt;
  }

  spawned :
      (a : Books) (b : Bytes)
      → s.max_calls ≢ 1
      → length a.in_flight < s.max_calls
      → V (acquiring b) a
      → V at_top (record a { in_flight = b ∷ a.in_flight })
  spawned a b n room v = record {
    frames = v.frames;
    reads = v.reads;
    balanced = λ f.
        omega (arith, v.balanced f, total-middle f [] b a.in_flight, total-one f b, total-empty f);
    bounded = omega (arith, room);
    alone = λ e. absurd (n e);
    ordered = λ e. absurd (n e);
    none_dropped = λ e. absurd (n e);
  }

  -- The read loop moves on with no frame in its hands, and the books as they were.
  moved :
      (p q : Pc) (a : Books)
      → held p ≡ held q
      → inline_calls q ≤ inline_calls p
      → (NoneDropped p a.dropped → NoneDropped q a.dropped)
      → V p a
      → V q a
  moved p q a h i d v = record {
    frames = v.frames;
    reads = v.reads;
    balanced = λ f.
        v.balanced f
        ∙ ap (λ l. total f a.answered + total f a.dropped + total f a.in_flight + total f l) h;
    bounded = omega (arith, v.bounded, i);
    alone = v.alone;
    ordered = λ e. v.ordered e ∙ ap (λ l. a.answered ++ (a.dropped ++ l)) h;
    none_dropped = λ e. d (v.none_dropped e);
  }

  taken_over : (a : Books) (b : Bytes) → s.max_calls ≡ 1 → V (acquiring b) a → V (inline b) a
  taken_over a b one v = record {
    frames = v.frames;
    reads = v.reads;
    balanced = v.balanced;
    bounded = omega (arith, ap length (v.alone one), one);
    alone = v.alone;
    ordered = v.ordered;
    none_dropped = v.none_dropped;
  }

  Same : (p : Pc) {a b : Books} → a ≡ b → V p b → V p a
  Same p h v = subst (V p) (sym h) v

  -- The books behind a call.
  abbrev settle : Bytes → List Bytes → Books → Books
  settle b rest a = record a { in_flight = rest; answered = a.answered ++ b ∷ [] }

  settled :
      (p : Pc) (b : Bytes) (rest : List Bytes) {a a' : Books}
      → a' ≡ a
      → V p (settle b rest a)
      → V p (settle b rest a')
  settled p b rest h v = subst (λ x. V p (settle b rest x)) (sym h) v

  module _ (rpc : Bytes → Option Bytes) where
    Step-Accounted :
        {p : Pc} {c d : Conn} {q : Pc} → Step s ending rpc p c q d → V p (books c) → V q (books d)
    unfolding ended fail
    Step-Accounted (goes_on c h) v = moved at_top in_read (books c) refl (omega arith) (λ x. x) v
    Step-Accounted (stops c h) v = moved at_top draining (books c) refl (omega arith) (λ x. tt) v
    Step-Accounted (gets c b rest h) v = got (books c) b rest h v
    Step-Accounted (meets_end c h) v =
        Same draining (stop-books clean_eof c)
          (moved in_read draining (books c) refl (omega arith) (λ x. tt) v)
    Step-Accounted (fails_to_read c e h) v =
        Same draining (stop-books (fatal e) c)
          (moved in_read draining (books c) refl (omega arith) (λ x. tt) v)
    Step-Accounted (takes_over c b h) v = taken_over (books c) b h v
    Step-Accounted (answers_inline c b io) v =
        settled at_top b c.in_flight (respond-books s io (rpc b) c) (answered_inline (books c) b v)
    Step-Accounted (panics_inline c b text) v = dropped_inline (books c) b v
    Step-Accounted (spawns c b n room) v = spawned (books c) b n room v
    Step-Accounted (gives_up c b n h) v = dropped_acquiring (books c) b n v
    Step-Accounted (answers p c xs b ys io h) v =
        settled p b (xs ++ ys) (respond-books s io (rpc b) c) (answered_one p (books c) xs b ys h v)
    Step-Accounted (panics p c xs b ys text h) v = dropped_one p (books c) xs b ys h v
    Step-Accounted (pushes p c body io) v = Same p (write-books push s io body c) v
    Step-Accounted (cancels p c) v = v
    Step-Accounted (returns c h) v = moved draining _ (books c) refl (omega arith) (λ x. tt) v

    pub Run-Accounted :
        {p q : Pc} {c d : Conn} → Run s ending rpc p c q d → V p (books c) → V q (books d)
    Run-Accounted (here p c) v = v
    Run-Accounted (next r st) v = Step-Accounted st (Run-Accounted r v)
