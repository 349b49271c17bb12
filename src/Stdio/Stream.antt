-- ===== src/Stdio/Stream.antt =====
-- jsonrpcstdio/framing.go: what both framings share. A stream is the bytes that are still to come
-- and how it ends; `read_slice` is `bufio.Reader.ReadSlice('\n')` with a buffer of `cap` bytes,
-- over a reader that reports its end in a call of its own.
use golang_jsonrpc.Prelude.{
  ℕ, zero, suc, ◌<◌, ◌≡◌, ◌≢◌, refl, Bool, true, false, ◌&&◌, [], ◌∷◌, ◌++◌, Option, none, some,
  arith, Bytes, ◌==◌, if◌then◌else◌, length, All,
}

pub data Ending : Type 0 where
  eof read_failed : Ending

pub data FrameError : Type 0 where
  read_failure unexpected_json header_line_too_long mid_header header_block_too_large : FrameError
  missing_length invalid_header_line duplicate_length invalid_length over_limit mid_body :
      FrameError
  unexpected_header : FrameError

-- A frame with the stream behind it, the clean end at a frame boundary, or a fatal error.
pub data Read : Type 0 where
  frame : Bytes → Bytes → Read
  clean_eof : Read
  fatal : FrameError → Read

-- What a read at the end of the input gives.
abbrev pub nothing_left : Ending → Option Read
nothing_left eof = some clean_eof
nothing_left read_failed = some (fatal read_failure)

pub data Slice : Type 0 where
  -- a line with its line feed, and what follows
  line : Bytes → Bytes → Slice
  -- a full buffer with no line feed
  full : Bytes → Bytes → Slice
  -- the stream ends before a line feed
  ended : Bytes → Slice

abbrev pub prepend : ℕ → Slice → Slice
prepend c (line l rest) = line (c ∷ l) rest
prepend c (full l rest) = full (c ∷ l) rest
prepend c (ended l) = ended (c ∷ l)

unfoldable pub read_slice : ℕ → Bytes → Slice
read_slice zero s = full [] s
read_slice (suc cap) [] = ended []
read_slice (suc cap) (c ∷ s) = if c == b'\n' then line (c ∷ []) s else prepend c (read_slice cap s)

abbrev pub reader_buffer_size : ℕ
reader_buffer_size = 32768

-- `begin`: one byte order mark at the very start of the stream is discarded.
unfoldable pub begin : Bool → Bytes → Bytes
begin true s = s
begin false (a ∷ b ∷ c ∷ s) = if a == 0xEF && b == 0xBB && c == 0xBF then s else a ∷ b ∷ c ∷ s
begin false s = s

-- `trimEOL`: one line feed at the end, and then one carriage return.
unfoldable pub trim_cr : Bytes → Bytes
trim_cr [] = []
trim_cr (c ∷ []) = if c == b'\r' then [] else c ∷ []
trim_cr (c ∷ d ∷ s) = c ∷ trim_cr (d ∷ s)

unfoldable pub trim_lf : Bytes → Bytes
trim_lf [] = []
trim_lf (c ∷ []) = if c == b'\n' then [] else c ∷ []
trim_lf (c ∷ d ∷ s) = c ∷ trim_lf (d ∷ s)

unfoldable pub trim_eol : Bytes → Bytes
unfolding trim_cr trim_lf
trim_eol s = trim_cr (trim_lf s)

-- `bytes.IndexByte(s, c)`, as the two sides of the first `c`.
unfoldable pub split_at : ℕ → Bytes → Option (Bytes × Bytes)
split_at b [] = none
split_at b (c ∷ s) =
    if c == b
    then some ([], s)
    else elim (split_at b s) [ none ↦ none | some (l, r) ↦ some (c ∷ l, r) ]

abbrev pub NoNewline : Bytes → Type 0
NoNewline = All (λ c. c ≢ b'\n')

-- A line within the buffer is read whole.
pub read_slice_line :
    (cap : ℕ) (l rest : Bytes)
    → NoNewline l
    → length l < cap
    → read_slice cap (l ++ b'\n' ∷ rest) ≡ line (l ++ b'\n' ∷ []) rest
unfolding read_slice
read_slice_line zero l rest n h = elim h [ ]
read_slice_line (suc cap) [] rest n h = refl
read_slice_line (suc cap) (c ∷ l) rest n h = ground (arith, read_slice_line cap l rest n.1)

pub trim_lf-concat : (s : Bytes) → trim_lf (s ++ b'\n' ∷ []) ≡ s
unfolding trim_lf
trim_lf-concat [] = refl
trim_lf-concat (c ∷ []) = refl
trim_lf-concat (c ∷ d ∷ s) = ground (arith, trim_lf-concat (d ∷ s))

pub trim_cr-concat : (s : Bytes) → trim_cr (s ++ b'\r' ∷ []) ≡ s
unfolding trim_cr
trim_cr-concat [] = refl
trim_cr-concat (c ∷ []) = refl
trim_cr-concat (c ∷ d ∷ s) = ground (arith, trim_cr-concat (d ∷ s))
