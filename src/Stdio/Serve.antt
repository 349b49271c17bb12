-- ===== src/Stdio/Serve.antt =====
-- jsonrpcstdio/serve.go: `Serve` as a step relation. The read loop has a program counter; the calls
-- of the dispatcher that it started are the frames in flight. The caller's context, the writes that
-- fail, pushes and panics are steps of the environment.
pub mod Run
pub mod Setup
pub mod Books
pub mod Accounted
pub mod Replies
pub mod Grows
pub mod Wired
pub mod Result
pub mod Clean
pub mod Ordered
pub mod Shorter
pub mod Serves
use golang_jsonrpc.Prelude.{
  ℕ, zero, suc, ◌≤◌, ◌<◌, ◌≡◌, ◌≢◌, refl, Bool, true, false, ◌&&◌, List, [], ◌∷◌, ◌++◌, Option,
  none, some, Bytes, ℤ, pos, negsuc, if◌then◌else◌, length,
}
use golang_jsonrpc.Stdio.Stream.{Ending, FrameError, Read, frame, clean_eof, fatal}
use golang_jsonrpc.Stdio.ContentLength
use golang_jsonrpc.Stdio.Ndjson

pub data Framing : Type 0 where
  framing_content_length framing_ndjson : Framing

abbrev pub default_max_message_size : ℕ
default_max_message_size = 8_388_608

abbrev pub default_max_concurrent_calls : ℕ
default_max_concurrent_calls = 1

pub record Server : Type 0 where
  pub framing : Framing
  pub max_message_size : ℕ
  pub max_calls : ℕ

abbrev pub new_server : Framing → Server
new_server f = record {
  framing = f;
  max_message_size = default_max_message_size;
  max_calls = default_max_concurrent_calls;
}

-- A number that is not positive keeps what was set.
abbrev positive_or : ℤ → ℕ → ℕ
positive_or (pos zero) d = d
positive_or (pos (suc n)) d = suc n
positive_or (negsuc n) d = d

abbrev pub with_max_message_size : ℤ → Server → Server
with_max_message_size n s = record s { max_message_size = positive_or n s.max_message_size }

abbrev pub with_max_concurrent_calls : ℤ → Server → Server
with_max_concurrent_calls n s = record s { max_calls = positive_or n s.max_calls }

-- `Framing` is a byte; 0 and all from 3 on are invalid.
unfoldable pub framing_of : ℕ → Option Framing
framing_of (suc zero) = some framing_content_length
framing_of (suc (suc zero)) = some framing_ndjson
framing_of _ = none

pub data ServeOption : Type 0 where
  option_message_size option_concurrent_calls : ℤ → ServeOption

unfoldable pub apply_option : ServeOption → Server → Server
apply_option (option_message_size n) s = with_max_message_size n s
apply_option (option_concurrent_calls n) s = with_max_concurrent_calls n s

unfoldable pub apply_all : List ServeOption → Server → Server
apply_all [] s = s
apply_all (o ∷ os) s = apply_all os (apply_option o s)

-- What `Serve` is called with, but for the streams themselves: which arguments are nil, the framing's
-- number, and the options.
pub record Arguments : Type 0 where
  pub has_rpc : Bool
  pub framing_number : ℕ
  pub has_reader : Bool
  pub has_writer : Bool
  pub options : List ServeOption

pub data Opened : Type 0 where
  rpc_is_nil invalid_framing stream_is_nil : Opened
  opened : Server → Opened

open_streams : Arguments → Framing → Opened
open_streams a f =
    if a.has_reader && a.has_writer
    then opened (apply_all a.options (new_server f))
    else stream_is_nil

open_framing : Arguments → Option Framing → Opened
unfolding open_streams
open_framing a none = invalid_framing
open_framing a (some f) = open_streams a f

unfoldable pub open_server : Arguments → Opened
unfolding open_framing
open_server a = if a.has_rpc then open_framing a (framing_of a.framing_number) else rpc_is_nil

-- The framer's two operations.
unfoldable pub framer_read : Server → Bool → Ending → Bytes → Option Read
framer_read s started ending b = elim s.framing [
  | framing_content_length ↦ ContentLength.read_frame started s.max_message_size ending b
  | framing_ndjson ↦ Ndjson.read_frame started s.max_message_size ending b
]

unfoldable pub framer_write : Server → Bytes → Option Bytes
framer_write s body = elim s.framing [
  | framing_content_length ↦ some (ContentLength.write_frame body)
  | framing_ndjson ↦ Ndjson.write_frame body
]

-- What ends a connection from outside of the read path.
pub data ConnError : Type 0 where
  write_failed : ConnError
  internal_panic : Bytes → ConnError

pub data ServeResult : Type 0 where
  nil : ServeResult
  conn_failed : ConnError → ServeResult
  context_ended : ServeResult
  read_stopped : FrameError → ServeResult

-- Where the read loop is. `acquiring` holds a frame and waits for a slot; `inline` runs its call.
pub data Pc : Type 0 where
  at_top in_read draining : Pc
  acquiring inline : Bytes → Pc
  returned : ServeResult → Pc

-- What stands on the output: a reply, a pushed notification, or the torn rest of a failed write.
pub data Chunk : Type 0 where
  reply push torn : Bytes → Chunk

pub record Conn : Type 0 where
  pub started : Bool
  pub stream : Bytes
  pub in_flight : List Bytes
  -- the frames whose call has ended, in that order, and those whose call was given up
  pub answered : List Bytes
  pub dropped : List Bytes
  pub wire : List Chunk
  pub writer_closed : Bool
  pub ctx_canceled : Bool
  -- `connCtx`
  pub canceled : Bool
  pub conn_err : Option ConnError
  pub read_err : Option FrameError
  pub eof_clean : Bool

abbrev pub start : Bytes → Conn
start stream = record {
  started = false;
  stream = stream;
  in_flight = [];
  answered = [];
  dropped = [];
  wire = [];
  writer_closed = false;
  ctx_canceled = false;
  canceled = false;
  conn_err = none;
  read_err = none;
  eof_clean = false;
}

-- `errOnce.Do`
unfoldable pub first_error : Option ConnError → ConnError → Option ConnError
first_error none e = some e
first_error (some e') e = some e'

unfoldable pub fail : ConnError → Conn → Conn
unfolding first_error
fail e c = record c { conn_err = first_error c.conn_err e; canceled = true }

-- The outcome of the writes below the framer: all of them, or only some bytes of the frame.
pub data Io : Type 0 where
  whole : Io
  partial : Bytes → Io

put : (Bytes → Chunk) → Io → Bytes → Conn → Conn
unfolding fail
put kind whole b c = record c { wire = c.wire ++ kind b ∷ [] }
put kind (partial b') b c =
    fail write_failed (record c { wire = c.wire ++ torn b' ∷ []; writer_closed = true })

-- A message that no frame can hold is lost alone.
put_framed : (Bytes → Chunk) → Io → Option Bytes → Conn → Conn
unfolding put
put_framed kind io none c = c
put_framed kind io (some b) c = put kind io b c

-- `connWriter.write`
unfoldable pub write : (Bytes → Chunk) → Server → Io → Bytes → Conn → Conn
unfolding put_framed
write kind s io body c = if c.writer_closed then c else put_framed kind io (framer_write s body) c

-- `dispatch`, behind the call: a notification writes nothing.
unfoldable pub respond : Server → Io → Option Bytes → Conn → Conn
unfolding write
respond s io none c = c
respond s io (some []) c = c
respond s io (some (b ∷ resp)) c = write reply s io (b ∷ resp) c

-- A read that gives no frame: the peer's end counts as clean only if the caller has not ended its
-- context before. On every other path the calls in flight are canceled.
unfoldable pub stop_reading : Read → Conn → Conn
stop_reading (frame b rest) c = c
stop_reading clean_eof c =
    if c.ctx_canceled then record c { canceled = true } else record c { eof_clean = true }
stop_reading (fatal e) c = record c { read_err = some e; canceled = true }

-- The result, by precedence.
unfoldable pub result_of : Conn → ServeResult
result_of c = elim c.conn_err [
  | some e ↦ conn_failed e
  | none ↦
      if c.eof_clean
      then nil
      else if c.ctx_canceled
      then context_ended
      else elim c.read_err [ some e ↦ read_stopped e | none ↦ nil ]
]

-- A call has ended.
unfoldable pub ended : Bytes → List Bytes → Conn → Conn
ended f rest c = record c { in_flight = rest; answered = c.answered ++ f ∷ [] }
