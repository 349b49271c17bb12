-- ===== src/Stdio/Serve/Replies.antt =====
-- What `Serve` writes, and what it returns.
use golang_jsonrpc.Prelude.{
  ◌≡◌, ◌≢◌, refl, sym, ap, ◌∙◌, Bool, true, false, List, [], ◌∷◌, ◌++◌, append_assoc, append-nil,
  Option, none, some, Bytes, if◌then◌else◌,
}
use golang_jsonrpc.Stdio.Serve.{
  Server, framer_write, ConnError, write_failed, Chunk, reply, push, torn, Conn, first_error, fail,
  Io, whole, partial, put, put_framed, write, respond,
}

-- The replies among what stands on the output.
unfoldable pub replies : List Chunk → List Bytes
replies [] = []
replies (reply b ∷ w) = b ∷ replies w
replies (push b ∷ w) = replies w
replies (torn b ∷ w) = replies w

replies-append : (w w' : List Chunk) → replies (w ++ w') ≡ replies w ++ replies w'
unfolding replies
replies-append [] w' = refl
replies-append (reply b ∷ w) w' = ap (◌∷◌ b) (replies-append w w')
replies-append (push b ∷ w) w' = replies-append w w'
replies-append (torn b ∷ w) w' = replies-append w w'

abbrev pub frames_of : Option Bytes → List Bytes
frames_of none = []
frames_of (some b) = b ∷ []

-- The frame of the reply to a message, if it has one.
unfoldable pub reply_to : Server → Option Bytes → List Bytes
reply_to s none = []
reply_to s (some []) = []
reply_to s (some (b ∷ resp)) = frames_of (framer_write s (b ∷ resp))

unfoldable pub replies_to : Server → (Bytes → Option Bytes) → List Bytes → List Bytes
replies_to s rpc [] = []
replies_to s rpc (f ∷ fs) = reply_to s (rpc f) ++ replies_to s rpc fs

pub replies_to-concat :
    (s : Server) (rpc : Bytes → Option Bytes) (fs : List Bytes) (f : Bytes)
    → replies_to s rpc (fs ++ f ∷ []) ≡ replies_to s rpc fs ++ reply_to s (rpc f)
unfolding replies_to
replies_to-concat s rpc [] f = append-nil (reply_to s (rpc f))
replies_to-concat s rpc (g ∷ fs) f =
    ap (λ l. reply_to s (rpc g) ++ l) (replies_to-concat s rpc fs f)
    ∙ sym (append_assoc (reply_to s (rpc g)) (replies_to s rpc fs) (reply_to s (rpc f)))

-- Unless the connection has failed, these replies were added to the output.
abbrev pub Adds : List Bytes → Conn → Conn → Type 0
Adds bs c d = d.conn_err ≡ none → (c.conn_err ≡ none) × (replies d.wire ≡ replies c.wire ++ bs)

-- A latched writer is the mark of a failure.
abbrev pub Latch : Conn → Type 0
Latch c = c.writer_closed ≡ true → c.conn_err ≢ none

pub first_error_some : (o : Option ConnError) (e : ConnError) → first_error o e ≢ none
unfolding first_error
first_error_some none e = λ h. cc
first_error_some (some e') e = λ h. cc

pub Adds-none : (c : Conn) → Adds [] c c
Adds-none c h = (h, sym (append-nil (replies c.wire)))

put-Adds : (io : Io) (o : Option Bytes) (c : Conn) → Adds (frames_of o) c (put_framed reply io o c)
unfolding put_framed put fail replies
put-Adds io none c = Adds-none c
put-Adds whole (some b) c = λ h. (h, replies-append c.wire (reply b ∷ []))
put-Adds (partial b') (some b) c = λ h. absurd (first_error_some c.conn_err write_failed h)

push-Adds : (io : Io) (o : Option Bytes) (c : Conn) → Adds [] c (put_framed push io o c)
unfolding put_framed put fail replies
push-Adds io none c = Adds-none c
push-Adds whole (some b) c = λ h. (h, replies-append c.wire (push b ∷ []))
push-Adds (partial b') (some b) c = λ h. absurd (first_error_some c.conn_err write_failed h)

put-Latch :
    (kind : Bytes → Chunk) (io : Io) (o : Option Bytes) (c : Conn)
    → Latch c
    → Latch (put_framed kind io o c)
unfolding put_framed put fail
put-Latch kind io none c l = l
put-Latch kind whole (some b) c l = l
put-Latch kind (partial b') (some b) c l = λ _. first_error_some c.conn_err write_failed

-- A property of both branches holds of the conditional.
pub either :
    (P : Conn → Type 0) (b : Bool) (c d : Conn) → (b ≡ true → P c) → P d → P (if b then c else d)
either P true c d h k = h refl
either P false c d h k = k

pub write-Latch :
    (kind : Bytes → Chunk) (s : Server) (io : Io) (body : Bytes) (c : Conn)
    → Latch c
    → Latch (write kind s io body c)
unfolding write
write-Latch kind s io body c l =
    either Latch c.writer_closed c _ (λ _. l) (put-Latch kind io (framer_write s body) c l)

pub write-Adds :
    (s : Server) (io : Io) (body : Bytes) (c : Conn)
    → Latch c
    → Adds (frames_of (framer_write s body)) c (write reply s io body c)
unfolding write
write-Adds s io body c l =
    either (Adds (frames_of (framer_write s body)) c) c.writer_closed c _ (λ w h. absurd (l w h))
      (put-Adds io (framer_write s body) c)

pub write-push-Adds :
    (s : Server) (io : Io) (body : Bytes) (c : Conn) → Adds [] c (write push s io body c)
unfolding write
write-push-Adds s io body c =
    either (Adds [] c) c.writer_closed c _ (λ _. Adds-none c) (push-Adds io (framer_write s body) c)

pub respond-Adds :
    (s : Server) (io : Io) (o : Option Bytes) (c : Conn)
    → Latch c
    → Adds (reply_to s o) c (respond s io o c)
unfolding respond reply_to
respond-Adds s io none c l = Adds-none c
respond-Adds s io (some []) c l = Adds-none c
respond-Adds s io (some (b ∷ resp)) c l = write-Adds s io (b ∷ resp) c l

pub respond-Latch :
    (s : Server) (io : Io) (o : Option Bytes) (c : Conn) → Latch c → Latch (respond s io o c)
unfolding respond
respond-Latch s io none c l = l
respond-Latch s io (some []) c l = l
respond-Latch s io (some (b ∷ resp)) c l = write-Latch reply s io (b ∷ resp) c l
