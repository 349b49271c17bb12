-- ===== src/Stdio/Serve/Ordered.antt =====
-- One call at a time: the messages that a peer has written are answered in their order.
use golang_jsonrpc.Prelude.{
  ℕ, ◌≤◌, ◌<◌, ◌^◌, ◌≡◌, ◌≢◌, refl, sym, ap, ◌∙◌, Bool, List, [], ◌∷◌, ◌++◌, append_assoc,
  append-nil, Option, none, some, Bytes, length, arith, All,
}
use golang_jsonrpc.Stdio.Stream.{Ending, eof, read_failed, nothing_left, frame, clean_eof}
use golang_jsonrpc.Stdio.ContentLength.RoundTrip.{read_frame-write_frame, ContentLength_nothing}
use golang_jsonrpc.Stdio.Ndjson.RoundTrip.{IsMessage, Ndjson_nothing}
use golang_jsonrpc.Stdio.Ndjson.Written.{
  Unmarked, write_message, Ndjson_reads_back, Unmarked-BeginsPlain,
}
use golang_jsonrpc.Stdio.Serve.{
  Server, Framing, framing_content_length, framing_ndjson, framer_read, framer_write, nil, at_top,
  returned, Conn, start,
}
use golang_jsonrpc.Stdio.Serve.Run.{Run}
use golang_jsonrpc.Stdio.Serve.Books.{books, Reads, unread, then_read, Accounted}
use golang_jsonrpc.Stdio.Serve.Replies.{replies, replies_to}
use golang_jsonrpc.Stdio.Serve.Wired.{Wired}
use golang_jsonrpc.Stdio.Serve.Clean.{AtEnd, Clean, run-Clean}
use golang_jsonrpc.Stdio.Serve.Result.{run-Wired, run-Accounted}

abbrev pub FitsIn : Framing → ℕ → Bytes → Type 0
FitsIn framing_content_length n m = (length m ≤ n) × (n < 2 ^ 63)
FitsIn framing_ndjson n m = IsMessage n m × Unmarked m

-- A message that the framing can carry, below the limit.
abbrev pub Fits : Server → Bytes → Type 0
Fits s m = FitsIn s.framing s.max_message_size m

-- What a peer with the same framing writes for its messages.
unfoldable pub framed : Option Bytes → Bytes
framed none = []
framed (some b) = b

unfoldable pub sent : Server → List Bytes → Bytes
sent s [] = []
sent s (m ∷ ms) = framed (framer_write s m) ++ sent s ms

frame_body : {a b s t : Bytes} → some (frame a s) ≡ some (frame b t) → a ≡ b
frame_body e = cc

frame_rest : {a b s t : Bytes} → some (frame a s) ≡ some (frame b t) → s ≡ t
frame_rest e = cc

nothing_frame : (ending : Ending) (b rest : Bytes) → nothing_left ending ≢ some (frame b rest)
nothing_frame eof b rest = λ e. cc
nothing_frame read_failed b rest = λ e. cc

pub framer_nothing :
    (f : Framing) (n k : ℕ) (started : Bool) (ending : Ending)
    → framer_read (record { framing = f; max_message_size = n; max_calls = k }) started ending []
      ≡ nothing_left ending
unfolding framer_read
framer_nothing framing_content_length n k started ending = ContentLength_nothing started n ending
framer_nothing framing_ndjson n k started ending = Ndjson_nothing started n ending

framer_back :
    (f : Framing) (n k : ℕ) (started : Bool) (ending : Ending) (m rest : Bytes)
    → FitsIn f n m
    → framer_read
        (record { framing = f; max_message_size = n; max_calls = k })
        started
        ending
        (framed (framer_write (record { framing = f; max_message_size = n; max_calls = k }) m)
          ++ rest)
      ≡ some (frame m rest)
unfolding framer_read framer_write framed
framer_back framing_content_length n k started ending m rest h =
    read_frame-write_frame started n ending m rest h.0 h.1
framer_back framing_ndjson n k started ending m rest h =
    rw (write_message n m h.0)
      (Ndjson_reads_back started n ending m rest h.0 (Unmarked-BeginsPlain started m h.1))

module _ (s : Server) (ending : Ending) where
  pub reads_back :
      (started : Bool) (m rest : Bytes)
      → Fits s m
      → framer_read s started ending (framed (framer_write s m) ++ rest) ≡ some (frame m rest)
  reads_back started m rest h =
      framer_back s.framing s.max_message_size s.max_calls started ending m rest h

  read_nothing :
      (started : Bool) (b rest : Bytes) → framer_read s started ending [] ≢ some (frame b rest)
  read_nothing started b rest e =
      nothing_frame ending b rest
        (sym (framer_nothing s.framing s.max_message_size s.max_calls started ending) ∙ e)

  -- What is left of the messages behind those that were read.
  record Left (ms fs : List Bytes) (t : Bytes) : Type 0 where
    left : List Bytes
    fit : All (Fits s) left
    all : ms ≡ fs ++ left
    rest : t ≡ sent s left

  -- The next frame is the next message.
  read_next :
      (started : Bool) (ms fs left : List Bytes) (t b rest : Bytes)
      → All (Fits s) left
      → ms ≡ fs ++ left
      → t ≡ sent s left
      → framer_read s started ending t ≡ some (frame b rest)
      → Left ms (fs ++ b ∷ []) rest
  unfolding sent
  read_next started ms fs [] t b rest h a e r =
      absurd (read_nothing started b rest (ap (framer_read s started ending) (sym e) ∙ r))
  read_next started ms fs (m ∷ left) t b rest h a e r = next_left m left b rest h.1 a same
    where
      same : some (frame m (sent s left)) ≡ some (frame b rest)
      same =
          sym (reads_back started m (sent s left) h.0)
          ∙ ap (framer_read s started ending) (sym e)
          ∙ r

      next_left :
          (m : Bytes) (left : List Bytes) (b rest : Bytes)
          → All (Fits s) left
          → ms ≡ fs ++ m ∷ left
          → some (frame m (sent s left)) ≡ some (frame b rest)
          → Left ms (fs ++ b ∷ []) rest
      next_left m left b rest h a e = record {
        left = left;
        fit = h;
        all = a ∙ ap (λ x. fs ++ x ∷ left) (frame_body e) ∙ sym (append_assoc fs (b ∷ []) left);
        rest = sym (frame_rest e);
      }

  read_all :
      {ms fs : List Bytes} {started : Bool} {t : Bytes}
      → All (Fits s) ms
      → Reads s ending (sent s ms) fs started t
      → Left ms fs t
  read_all {ms} h unread = record { left = ms; fit = h; all = refl; rest = refl }
  read_all {ms} h (then_read {bs} {started} {t} b rest r e) = further (read_all h r) e
    where
      further :
          Left ms bs t
          → framer_read s started ending t ≡ some (frame b rest)
          → Left ms (bs ++ b ∷ []) rest
      further l e = read_next started ms bs l.left t b rest l.fit l.all l.rest e

  -- At a clean end nothing is left.
  nothing_more :
      (started : Bool) (left : List Bytes)
      → All (Fits s) left
      → framer_read s started ending (sent s left) ≡ some clean_eof
      → left ≡ []
  unfolding sent
  nothing_more started [] h e = refl
  nothing_more started (m ∷ left) h e =
      absurd (not_clean (sym (reads_back started m (sent s left) h.0) ∙ e))
    where
      not_clean : {b t : Bytes} → some (frame b t) ≢ some clean_eof
      not_clean e = cc

  module _ (rpc : Bytes → Option Bytes) (ms : List Bytes) (slots : s.max_calls ≡ 1)
      (fits : All (Fits s) ms) where
    all_answered :
        (started : Bool) (fs answered dropped : List Bytes) (t : Bytes)
        → Left ms fs t
        → framer_read s started ending t ≡ some clean_eof
        → fs ≡ answered ++ (dropped ++ [])
        → dropped ≡ []
        → answered ≡ ms
    all_answered started fs answered dropped t l k o d = sym (
        l.all
        ∙ ap (λ x. fs ++ x) none_left
        ∙ append-nil fs
        ∙ o
        ∙ ap (λ x. answered ++ (x ++ [])) d
        ∙ append-nil answered)
      where
        none_left : l.left ≡ []
        none_left =
            nothing_more started l.left l.fit (ap (framer_read s started ending) (sym l.rest) ∙ k)

    finish :
        {c : Conn}
        → Accounted s ending (sent s ms) (returned nil) (books c)
        → Wired s ending rpc (returned nil) c
        → Clean s ending c
        → replies c.wire ≡ replies_to s rpc ms
    unfolding AtEnd
    finish {c} v w k =
        w.kept (w.now.2 refl).0
        ∙ ap (replies_to s rpc) (
            all_answered c.started v.frames c.answered c.dropped c.stream (read_all fits v.reads)
              (k (w.now.2 refl).2) (v.ordered slots) (w.now.2 refl).1)

    -- One call at a time: if `Serve` returns nil on the frames that a peer has written for some
    -- messages, all of which the framing can carry, then the replies on its output are those to
    -- all of the messages, in their order.
    pub Run-replies :
        {c : Conn}
        → Run s ending rpc at_top (start (sent s ms)) (returned nil) c
        → replies c.wire ≡ replies_to s rpc ms
    Run-replies run =
        finish (run-Accounted s ending rpc (sent s ms) (omega (arith, slots)) run)
          (run-Wired s ending rpc (sent s ms) (omega (arith, slots)) run)
          (run-Clean s ending rpc (sent s ms) run)
