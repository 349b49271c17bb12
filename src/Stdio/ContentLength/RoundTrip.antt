-- ===== src/Stdio/ContentLength/RoundTrip.antt =====
-- What `contentLengthFramer.WriteFrame` writes, its `ReadFrame` reads back.
use golang_jsonrpc.Prelude.{
  ℕ, suc, ◌+◌, ◌^◌, ◌≤◌, ◌<◌, ◌≡◌, ◌≢◌, refl, ap, ◌∙◌, Bool, true, false, [], ◌∷◌, ◌++◌,
  append_assoc, Option, none, some, arith, Bytes, length, length-append, take-append, drop-append,
  codes, All, All-append,
}
use golang_jsonrpc.Text.Space.{trim_space, equal_fold, trim_space-blank, IsVisible}
use golang_jsonrpc.Text.Decimal.{
  print, parse_int-print, length-print, All-print, print-ne-nil, IsDigit,
}
use golang_jsonrpc.Stdio.Stream.{
  Ending, eof, read_failed, frame, nothing_left, read_slice, reader_buffer_size, read_slice_line,
  NoNewline, begin, trim_eol, trim_cr, trim_lf-concat, trim_cr-concat, split_at,
}
use golang_jsonrpc.Stdio.ContentLength.{
  max_header_bytes, header_line, read_header_line, line_of, parse_header, content_length,
  read_headers, read_body, end_of_block, sniff, read_frame, write_frame,
}

-- The text of the one header line that `WriteFrame` writes.
abbrev header : ℕ → Bytes
header n = codes "Content-Length: " ++ print n

IsDigit-IsVisible : (s : Bytes) → All IsDigit s → All IsVisible s
IsDigit-IsVisible [] h = tt
IsDigit-IsVisible (c ∷ s) h = (omega arith, IsDigit-IsVisible s h.1)

name_matches : equal_fold (trim_space (codes "Content-Length")) (codes "Content-Length") ≡ true
unfolding equal_fold trim_space
name_matches = refl

parse_header-header :
    (n max_size : ℕ)
    → n ≤ max_size
    → max_size < 2 ^ 63
    → parse_header max_size none (header n) ≡ content_length (some n)
unfolding parse_header split_at
parse_header-header n max_size h b =
    rw
      (
        trim_space-blank (print n) (print-ne-nil n) (IsDigit-IsVisible _ (All-print n)),
        name_matches,
        parse_int-print n (omega arith),
      )
      (ground arith)

IsDigit-NoNewline : (s : Bytes) → All IsDigit s → NoNewline s
IsDigit-NoNewline [] h = tt
IsDigit-NoNewline (c ∷ s) h = ((λ e. absurd (omega arith)), IsDigit-NoNewline s h.1)

header-NoNewline : (n : ℕ) → NoNewline (header n ++ codes "\r")
header-NoNewline n =
    All-append _ (header n) _
      (All-append _ (codes "Content-Length: ") (print n) (omega arith)
        (IsDigit-NoNewline _ (All-print n)))
      (omega arith)

trim_eol-header : (n : ℕ) → trim_eol ((header n ++ codes "\r") ++ codes "\n") ≡ header n
unfolding trim_eol
trim_eol-header n = ap trim_cr (trim_lf-concat (header n ++ codes "\r")) ∙ trim_cr-concat (header n)

length-header : (n : ℕ) → n < 2 ^ 63 → length (header n ++ codes "\r") ≤ 36
length-header n h = omega (
  arith,
  length-append (header n) (codes "\r"),
  length-append (codes "Content-Length: ") (print n),
  length-print n h,
)

header_line_lem :
    (ending : Ending) (n : ℕ) (rest : Bytes)
    → n < 2 ^ 63
    → read_header_line ending true ((header n ++ codes "\r") ++ b'\n' ∷ rest)
      ≡ header_line ((header n ++ codes "\r") ++ codes "\n") rest
unfolding read_header_line
header_line_lem ending n rest h = ap (line_of ending true) (
    read_slice_line reader_buffer_size (header n ++ codes "\r") rest (header-NoNewline n)
      (omega (arith, length-header n h)))

blank_line :
    (ending : Ending) (rest : Bytes)
    → read_header_line ending false (b'\r' ∷ b'\n' ∷ rest) ≡ header_line (codes "\r\n") rest
unfolding read_header_line read_slice
blank_line ending rest = refl

read_body_lem :
    (ending : Ending) (body rest : Bytes)
    → read_body ending (length body) (body ++ rest) ≡ frame body rest
unfolding read_body
read_body_lem eof body rest =
    rw (take-append body rest, drop-append body rest) (ground (arith, length-append body rest))
read_body_lem read_failed body rest =
    rw (take-append body rest, drop-append body rest) (ground (arith, length-append body rest))

module _ (fuel max_size : ℕ) (ending : Ending) (len : Option ℕ) (total : ℕ) (first : Bool) where
  -- A round on a header line.
  read_headers-header :
      (s l rest : Bytes) (len' : Option ℕ)
      → read_header_line ending first s ≡ header_line l rest
      → total + length l ≤ max_header_bytes
      → trim_eol l ≢ []
      → parse_header max_size len (trim_eol l) ≡ content_length len'
      → read_headers (suc fuel) max_size ending len total first s
        ≡ read_headers fuel max_size ending len' (total + length l) false rest
  unfolding read_headers
  read_headers-header s l rest len' e h n p = rw (e, read_headers) (rw p (ground arith))

  -- The round on the blank line.
  read_headers_blank :
      (s l rest : Bytes)
      → read_header_line ending first s ≡ header_line l rest
      → total + length l ≤ max_header_bytes
      → trim_eol l ≡ []
      → read_headers (suc fuel) max_size ending len total first s
        ≡ some (end_of_block ending len rest)
  unfolding read_headers
  read_headers_blank s l rest e h n = rw (e, read_headers) (ground arith)

second_round :
    (fuel max_size : ℕ) (ending : Ending) (total : ℕ) (body rest : Bytes)
    → total ≤ 8190
    → read_headers
        (suc fuel)
        max_size
        ending
        (some (length body))
        total
        false
        (b'\r' ∷ b'\n' ∷ (body ++ rest))
      ≡ some (frame body rest)
unfolding end_of_block
second_round fuel max_size ending total body rest h =
    read_headers_blank fuel max_size ending (some (length body)) total false _ _ _
      (blank_line ending (body ++ rest)) (omega arith) (unfold trim_eol in refl)
    ∙ ap some (read_body_lem ending body rest)

header_bytes : (n : ℕ) → n < 2 ^ 63 → length ((header n ++ codes "\r") ++ codes "\n") ≤ 37
header_bytes n h =
    omega (arith, length-append (header n ++ codes "\r") (codes "\n"), length-header n h)

first_round :
    (fuel max_size : ℕ) (ending : Ending) (body rest : Bytes)
    → length body ≤ max_size
    → max_size < 2 ^ 63
    → read_headers
        (suc (suc fuel))
        max_size
        ending
        none
        0
        true
        ((header (length body) ++ codes "\r") ++ b'\n' ∷ b'\r' ∷ b'\n' ∷ (body ++ rest))
      ≡ some (frame body rest)
first_round fuel max_size ending body rest h b =
    let n = length body in
    let small : n < 2 ^ 63 = omega arith in
    read_headers-header (suc fuel) max_size ending none 0 true _ _ _ (some n)
      (header_line_lem ending n (b'\r' ∷ b'\n' ∷ (body ++ rest)) small)
      (omega (arith, header_bytes n small)) (rw (trim_eol-header n) (λ e. cc))
      (rw (trim_eol-header n) (parse_header-header n max_size h b))
    ∙ second_round fuel max_size ending _ body rest (omega (arith, header_bytes n small))

-- The bytes of a frame, in the grouping that the header loop reads.
write_frame-append :
    (body rest : Bytes)
    → write_frame body ++ rest
      ≡ (header (length body) ++ codes "\r") ++ b'\n' ∷ b'\r' ∷ b'\n' ∷ (body ++ rest)
unfolding write_frame
write_frame-append body rest = simp append_assoc

-- A frame that was written is read back, whatever bytes stand behind it, and nothing more than the
-- frame is consumed: if the body is within the limit of the reader, and the limit is an `int64`.
pub read_frame-write_frame :
    (started : Bool) (max_size : ℕ) (ending : Ending) (body rest : Bytes)
    → length body ≤ max_size
    → max_size < 2 ^ 63
    → read_frame started max_size ending (write_frame body ++ rest) ≡ some (frame body rest)
unfolding read_frame sniff begin
read_frame-write_frame true max_size ending body rest h b =
    rw (write_frame-append body rest) (first_round 8191 max_size ending body rest h b)
read_frame-write_frame false max_size ending body rest h b =
    rw (write_frame-append body rest) (first_round 8191 max_size ending body rest h b)

pub ContentLength_nothing :
    (started : Bool) (max_size : ℕ) (ending : Ending)
    → read_frame started max_size ending [] ≡ nothing_left ending
unfolding read_frame sniff begin
ContentLength_nothing true max_size eof = refl
ContentLength_nothing true max_size read_failed = refl
ContentLength_nothing false max_size eof = refl
ContentLength_nothing false max_size read_failed = refl
