-- ===== src/Stdio/Serve/Books.antt =====
-- Where every frame is that `Serve` has read: answered, given up, in flight, or held by the loop.
use golang_jsonrpc.Prelude.{
  ℕ, ◌+◌, ◌≤◌, ◌≡◌, refl, Bool, true, false, List, [], ◌∷◌, ◌++◌, Option, none, some, Bytes,
  if◌then◌else◌, length, arith,
}
use golang_jsonrpc.Stdio.Stream.{Ending, Read, frame, clean_eof, fatal}
use golang_jsonrpc.Stdio.Serve.{
  Server, framer_read, framer_write, Pc, draining, acquiring, inline, returned, Chunk, Conn, fail,
  Io, whole, partial, put, put_framed, write, respond, reply, stop_reading,
}

pub record Books : Type 0 where
  pub started : Bool
  pub stream : Bytes
  pub in_flight : List Bytes
  pub answered : List Bytes
  pub dropped : List Bytes

abbrev pub books : Conn → Books
books c = record {
  started = c.started;
  stream = c.stream;
  in_flight = c.in_flight;
  answered = c.answered;
  dropped = c.dropped;
}

-- A write moves no frame.
put-books :
    (kind : Bytes → Chunk) (io : Io) (o : Option Bytes) (c : Conn)
    → books (put_framed kind io o c) ≡ books c
unfolding put_framed put fail
put-books kind io none c = refl
put-books kind whole (some b) c = refl
put-books kind (partial b') (some b) c = refl

books-if :
    (b : Bool) (c d e : Conn)
    → books c ≡ books e
    → books d ≡ books e
    → books (if b then c else d) ≡ books e
books-if true c d e h k = h
books-if false c d e h k = k

pub write-books :
    (kind : Bytes → Chunk) (s : Server) (io : Io) (body : Bytes) (c : Conn)
    → books (write kind s io body c) ≡ books c
unfolding write
write-books kind s io body c =
    books-if c.writer_closed c (put_framed kind io (framer_write s body) c) c refl
      (put-books kind io _ c)

pub respond-books :
    (s : Server) (io : Io) (o : Option Bytes) (c : Conn) → books (respond s io o c) ≡ books c
unfolding respond
respond-books s io none c = refl
respond-books s io (some []) c = refl
respond-books s io (some (b ∷ resp)) c = write-books reply s io (b ∷ resp) c

pub stop-books : (r : Read) (c : Conn) → books (stop_reading r c) ≡ books c
unfolding stop_reading
stop-books (frame b rest) c = refl
stop-books clean_eof c =
    books-if c.ctx_canceled (record c { canceled = true }) (record c { eof_clean = true }) c refl
      refl
stop-books (fatal e) c = refl

-- How much the frames of a list weigh; with a weight of 1 for one frame and 0 for all others, how
-- often that frame is there.
unfoldable pub total : (Bytes → ℕ) → List Bytes → ℕ
total f [] = 0
total f (b ∷ bs) = f b + total f bs

pub total-append :
    (f : Bytes → ℕ) (xs ys : List Bytes) → total f (xs ++ ys) ≡ total f xs + total f ys
unfolding total
total-append f [] ys = omega arith
total-append f (x ∷ xs) ys = omega (arith, total-append f xs ys)

pub total-one : (f : Bytes → ℕ) (b : Bytes) → total f (b ∷ []) ≡ f b
unfolding total
total-one f b = omega arith

total-cons : (f : Bytes → ℕ) (b : Bytes) (ys : List Bytes) → total f (b ∷ ys) ≡ f b + total f ys
unfolding total
total-cons f b ys = refl

pub total-concat :
    (f : Bytes → ℕ) (xs : List Bytes) (b : Bytes) → total f (xs ++ b ∷ []) ≡ total f xs + f b
total-concat f xs b = omega (arith, total-append f xs (b ∷ []), total-one f b)

pub total-middle :
    (f : Bytes → ℕ) (xs : List Bytes) (b : Bytes) (ys : List Bytes)
    → total f (xs ++ b ∷ ys) ≡ f b + total f (xs ++ ys)
total-middle f xs b ys =
    omega (arith, total-append f xs (b ∷ ys), total-append f xs ys, total-cons f b ys)

-- The frame that the read loop has taken and not yet handed on.
abbrev pub held : Pc → List Bytes
held (acquiring b) = b ∷ []
held (inline b) = b ∷ []
held _ = []

-- The calls that run on the read loop itself.
abbrev pub inline_calls : Pc → ℕ
inline_calls (inline b) = 1
inline_calls _ = 0

-- The loop that is still reading has given up nothing.
abbrev pub NoneDropped : Pc → List Bytes → Type 0
NoneDropped draining dropped = Unit
NoneDropped (returned r) dropped = Unit
NoneDropped _ dropped = dropped ≡ []

module _ (s : Server) (ending : Ending) (stream : Bytes) where
  -- The frames that the framer gives on the stream, up to a point.
  pub data Reads : List Bytes → Bool → Bytes → Type 0 where
    unread : Reads [] false stream
    then_read :
        {bs : List Bytes} {started : Bool} {t : Bytes} (b rest : Bytes)
        → Reads bs started t
        → framer_read s started ending t ≡ some (frame b rest)
        → Reads (bs ++ b ∷ []) true rest

  pub record Accounted (p : Pc) (a : Books) : Type 0 where
    pub frames : List Bytes
    pub reads : Reads frames a.started a.stream
    pub balanced :
        (f : Bytes → ℕ)
        → total f frames
          ≡ total f a.answered + total f a.dropped + total f a.in_flight + total f (held p)
    pub bounded : length a.in_flight + inline_calls p ≤ s.max_calls
    pub alone : s.max_calls ≡ 1 → a.in_flight ≡ []
    pub ordered : s.max_calls ≡ 1 → frames ≡ a.answered ++ (a.dropped ++ held p)
    pub none_dropped : s.max_calls ≡ 1 → NoneDropped p a.dropped
