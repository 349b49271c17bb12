-- ===== src/Stdio/Serve/Grows.antt =====
-- What the calls, the pushes and the caller's context may do to a connection at any time: a failure
-- is not forgotten, and the marks of the read loop stay.
use golang_jsonrpc.Prelude.{
  ◌≡◌, ◌≢◌, refl, sym, ◌∙◌, true, false, List, [], ◌∷◌, Option, none, some, Bytes,
}
use golang_jsonrpc.Stdio.Serve.{
  Server, framer_write, internal_panic, write_failed, Chunk, reply, Conn, fail, Io, whole, partial,
  put, put_framed, write, respond, ended,
}
use golang_jsonrpc.Stdio.Serve.Replies.{Latch, either, first_error_some}

-- A canceled connection has failed, or its caller's context has ended.
abbrev pub Why : Conn → Type 0
Why c = c.canceled ≡ true → c.conn_err ≡ none → c.ctx_canceled ≡ true

pub record Grows (c d : Conn) : Type 0 where
  pub unfailed : d.conn_err ≡ none → c.conn_err ≡ none
  pub eof : d.eof_clean ≡ c.eof_clean
  pub read : d.read_err ≡ c.read_err
  pub ctx : d.ctx_canceled ≡ false → c.ctx_canceled ≡ false
  pub why : Why c → Why d
  pub latched : Latch c → Latch d
  pub kept : d.conn_err ≡ none → d.dropped ≡ c.dropped

Grows-refl : (c : Conn) → Grows c c
Grows-refl c = record {
  unfailed = λ h. h;
  eof = refl;
  read = refl;
  ctx = λ h. h;
  why = λ h. h;
  latched = λ h. h;
  kept = λ h. refl;
}

-- Whatever it does, a failure that keeps the marks is growth.
failed-Grows :
    (c d : Conn)
    → d.conn_err ≢ none
    → d.eof_clean ≡ c.eof_clean
    → d.read_err ≡ c.read_err
    → d.ctx_canceled ≡ c.ctx_canceled
    → Grows c d
failed-Grows c d h e r x = record {
  unfailed = λ k. absurd (h k);
  eof = e;
  read = r;
  ctx = λ k. sym x ∙ k;
  why = λ _ _ k. absurd (h k);
  latched = λ _ _. h;
  kept = λ k. absurd (h k);
}

put-Grows :
    (kind : Bytes → Chunk) (io : Io) (o : Option Bytes) (c : Conn)
    → Grows c (put_framed kind io o c)
unfolding put_framed put fail
put-Grows kind io none c = Grows-refl c
put-Grows kind whole (some b) c = record {
  unfailed = λ h. h;
  eof = refl;
  read = refl;
  ctx = λ h. h;
  why = λ h. h;
  latched = λ h. h;
  kept = λ h. refl;
}
put-Grows kind (partial b') (some b) c =
    failed-Grows c _ (first_error_some c.conn_err write_failed) refl refl refl

pub write-Grows :
    (kind : Bytes → Chunk) (s : Server) (io : Io) (body : Bytes) (c : Conn)
    → Grows c (write kind s io body c)
unfolding write
write-Grows kind s io body c =
    either (Grows c) c.writer_closed c _ (λ _. Grows-refl c)
      (put-Grows kind io (framer_write s body) c)

-- A writer that is closed writes nothing.
pub write-closed :
    (kind : Bytes → Chunk) (s : Server) (io : Io) (body : Bytes) (c : Conn)
    → c.writer_closed ≡ true
    → write kind s io body c ≡ c
unfolding write
write-closed kind s io body c h = rw h refl

pub respond-Grows :
    (s : Server) (io : Io) (o : Option Bytes) (c : Conn) → Grows c (respond s io o c)
unfolding respond
respond-Grows s io none c = Grows-refl c
respond-Grows s io (some []) c = Grows-refl c
respond-Grows s io (some (b ∷ resp)) c = write-Grows reply s io (b ∷ resp) c

ended-grown : (b : Bytes) (rest : List Bytes) (c d : Conn) → Grows c d → Grows c (ended b rest d)
unfolding ended
ended-grown b rest c d g = record {
  unfailed = g.unfailed;
  eof = g.eof;
  read = g.read;
  ctx = g.ctx;
  why = g.why;
  latched = g.latched;
  kept = g.kept;
}

pub ended-Grows :
    (s : Server) (io : Io) (o : Option Bytes) (b : Bytes) (rest : List Bytes) (c : Conn)
    → Grows c (ended b rest (respond s io o c))
ended-Grows s io o b rest c = ended-grown b rest c _ (respond-Grows s io o c)

pub panic-Grows :
    (text : Bytes) (rest lost : List Bytes) (c : Conn)
    → Grows c (record (fail (internal_panic text) c) { in_flight = rest; dropped = lost })
unfolding fail
panic-Grows text rest lost c =
    failed-Grows c _ (first_error_some c.conn_err (internal_panic text)) refl refl refl

pub cancel-Grows : (c : Conn) → Grows c (record c { ctx_canceled = true; canceled = true })
cancel-Grows c = record {
  unfailed = λ h. h;
  eof = refl;
  read = refl;
  ctx = λ h. cc;
  why = λ _ _ _. refl;
  latched = λ h. h;
  kept = λ h. refl;
}
