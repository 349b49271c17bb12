-- ===== src/Stdio/Client/Run.antt =====
-- The runs of a client: what its goroutines do to it, in any order. And what a closed client keeps.
use golang_jsonrpc.Prelude.{ℕ, ◌≡◌, refl, ◌∙◌, Bool, true, false, [], Option, Bytes, if◌then◌else◌}
use golang_jsonrpc.Text.Space.{trim_space}
use golang_jsonrpc.Stdio.Stream.{Read, frame, clean_eof, fatal}
use golang_jsonrpc.Rpc.Types.{Request, Response}
use golang_jsonrpc.Stdio.Client.{
  Client, Fault, shutdown, close, register, unregister, Sent, wrote, unframeable, broken,
  write_open, write, refused_closed, on_text, on_read,
}

module _ (decode_response : Bytes → Option Response) (decode_request : Bytes → Option Request) where
  -- What the goroutines of a client do to it, in any order: the calls register, write and give up,
  -- the read loop takes what the framer gives, and the owner closes.
  pub data Step : Client → Client → Type 0 where
    registers : (c : Client) → Step c (register c)
    gives_up : (n : ℕ) (c : Client) → Step c (unregister n c)
    writes : (out : Sent) (c : Client) → Step c (write out c).0
    reads :
        (h : Bool) (r : Read) (c : Client) → Step c (on_read decode_response decode_request h r c).0
    closes : (c : Client) → Step c (close c)

  pub data Run : Client → Client → Type 0 where
    done : (c : Client) → Run c c
    next : {c d e : Client} → Step c d → Run d e → Run c e

-- The cause of a client that is closed.
abbrev pub Kept : Option Fault → Client → Type 0
Kept cause d = (d.closed ≡ true) × (d.cause ≡ cause)

Kept-then :
    (b : Bool) (c d : Client) {cause : Option Fault}
    → b ≡ true
    → Kept cause c
    → Kept cause (if b then c else d)
Kept-then true c d h k = k
Kept-then false c d h k = cc

Kept-either :
    {A : Type 0} (b : Bool) (p q : Client × A) {cause : Option Fault}
    → Kept cause p.0
    → Kept cause q.0
    → Kept cause (if b then p else q).0
Kept-either true p q k l = k
Kept-either false p q k l = l

Kept-first :
    {A : Type 0} (b : Bool) (p q : Client × A) {cause : Option Fault}
    → b ≡ true
    → Kept cause p.0
    → Kept cause (if b then p else q).0
Kept-first true p q h k = k
Kept-first false p q h k = cc

shutdown-Kept :
    (cause : Option Fault) (c : Client) → c.closed ≡ true → Kept c.cause (shutdown cause c)
unfolding shutdown
shutdown-Kept cause c h = Kept-then c.closed c _ h (h, refl)

write_open-Kept : (out : Sent) (c : Client) → c.closed ≡ true → Kept c.cause (write_open out c).0
unfolding write_open
write_open-Kept wrote c h = (h, refl)
write_open-Kept unframeable c h = (h, refl)
write_open-Kept broken c h = shutdown-Kept _ (record c { writer_closed = true }) h

module _ (decode_response : Bytes → Option Response) (decode_request : Bytes → Option Request) where
  Step-Kept :
      {c d : Client} → Step decode_response decode_request c d → c.closed ≡ true → Kept c.cause d
  unfolding register unregister write on_read close
  Step-Kept (registers c) e = (e, refl)
  Step-Kept (gives_up n c) e = (e, refl)
  Step-Kept (writes out c) e =
      Kept-either c.writer_closed (c, refused_closed) (write_open out c) (e, refl)
        (write_open-Kept out c e)
  Step-Kept (reads h clean_eof c) e = shutdown-Kept _ (record c { writer_closed = true }) e
  Step-Kept (reads h (fatal f) c) e = shutdown-Kept _ (record c { writer_closed = true }) e
  Step-Kept (reads h (frame text rest) c) e =
      Kept-first c.closed (c, []) (on_text decode_response decode_request h (trim_space text) c) e
        (e, refl)
  Step-Kept (closes c) e = shutdown-Kept _ (record c { writer_closed = true }) e

  -- A client that is closed stays closed, whatever happens to it, and keeps the cause that it was
  -- closed with.
  pub Run-Kept :
      {c d : Client} → Run decode_response decode_request c d → c.closed ≡ true → Kept c.cause d
  Run-Kept (done c) e = (e, refl)
  Run-Kept (next s r) e =
      let (closed, same) = Step-Kept s e in
      let (closed', same') = Run-Kept r closed in (closed', same' ∙ same)
