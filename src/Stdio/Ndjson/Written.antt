-- ===== src/Stdio/Ndjson/Written.antt =====
-- What `ndjsonFramer.WriteFrame` writes is read back, at the start of a stream and later.
use golang_jsonrpc.Prelude.{
  ℕ, ◌≡◌, ◌≢◌, refl, ap, ◌∙◌, Bool, true, false, [], ◌∷◌, ◌++◌, append_assoc, some, Bytes, arith,
}
use golang_jsonrpc.Stdio.Stream.{Ending, frame, begin}
use golang_jsonrpc.Stdio.Ndjson.{read_frame, write_frame}
use golang_jsonrpc.Stdio.Ndjson.RoundTrip.{IsMessage, NoNewline-has_newline, read_frame_line}

-- No byte order mark begins here.
abbrev pub Unmarked : Bytes → Type 0
Unmarked [] = Unit
Unmarked (a ∷ s) = a ≢ 0xEF

-- At the start of a stream no byte order mark is taken off.
abbrev pub BeginsPlain : Bool → Bytes → Type 0
BeginsPlain true s = Unit
BeginsPlain false s = Unmarked s

pub Unmarked-BeginsPlain : (started : Bool) (s : Bytes) → Unmarked s → BeginsPlain started s
Unmarked-BeginsPlain true s u = tt
Unmarked-BeginsPlain false s u = u

begin_plain : (m rest : Bytes) → Unmarked m → m ≢ [] → begin false (m ++ rest) ≡ m ++ rest
unfolding begin
begin_plain [] rest u n = absurd (n refl)
begin_plain (a ∷ []) [] u n = refl
begin_plain (a ∷ []) (b ∷ []) u n = refl
begin_plain (a ∷ []) (b ∷ c ∷ rest) u n = ground arith
begin_plain (a ∷ b ∷ []) [] u n = refl
begin_plain (a ∷ b ∷ []) (c ∷ rest) u n = ground arith
begin_plain (a ∷ b ∷ c ∷ m) rest u n = ground arith

pub write_message : (n : ℕ) (m : Bytes) → IsMessage n m → write_frame m ≡ some (m ++ b'\n' ∷ [])
unfolding write_frame
write_message n m h = rw (NoNewline-has_newline m h.one_line) refl

first_or_later :
    (started : Bool) (n : ℕ) (ending : Ending) (m rest : Bytes)
    → BeginsPlain started m
    → m ≢ []
    → read_frame started n ending (m ++ rest) ≡ read_frame true n ending (m ++ rest)
unfolding read_frame begin
first_or_later true n ending m rest h k = refl
first_or_later false n ending m rest h k = rw (begin_plain m rest h k) refl

pub Ndjson_reads_back :
    (started : Bool) (n : ℕ) (ending : Ending) (m rest : Bytes)
    → IsMessage n m
    → BeginsPlain started m
    → read_frame started n ending ((m ++ b'\n' ∷ []) ++ rest) ≡ some (frame m rest)
Ndjson_reads_back started n ending m rest h u =
    ap (λ t. read_frame started n ending t) (append_assoc m (b'\n' ∷ []) rest)
    ∙ first_or_later started n ending m (b'\n' ∷ rest) u h.not_blank
    ∙ read_frame_line n ending m rest h

-- A message is written, and read back as it was, if it is one line, is not empty, does not end in a
-- carriage return, is within the limit and is no header of the other framing, and if the first
-- frame of a stream does not begin with the first byte of a byte order mark. The bytes behind it
-- are left.
pub read_frame_written :
    (started : Bool) (max_size : ℕ) (ending : Ending) (body rest : Bytes)
    → IsMessage max_size body
    → BeginsPlain started body
    → (w : Bytes) × (write_frame body ≡ some w)
      × (read_frame started max_size ending (w ++ rest) ≡ some (frame body rest))
read_frame_written started max_size ending body rest m u = (
  body ++ b'\n' ∷ [],
  write_message max_size body m,
  Ndjson_reads_back started max_size ending body rest m u,
)
