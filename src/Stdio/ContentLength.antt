-- ===== src/Stdio/ContentLength.antt =====
-- jsonrpcstdio/framing.go: `contentLengthFramer`, the base protocol of LSP.
pub mod Total
pub mod RoundTrip
use golang_jsonrpc.Prelude.{
  ℕ, zero, suc, ◌+◌, ◌-◌, ◌≤◌, ◌<◌, ◌≡◌, ◌≢◌, refl, Bool, true, false, not, ◌&&◌, ◌||◌, List, [],
  ◌∷◌, ◌++◌, Option, none, some, arith, Bytes, ◌==◌, ltb, if◌then◌else◌, length, take, drop, All,
  codes, is_nil, ℤ, pos, negsuc,
}
use golang_jsonrpc.Text.Space.{trim_space, equal_fold}
use golang_jsonrpc.Text.Decimal.{print, parse_int}
use golang_jsonrpc.Stdio.Stream.{
  Ending, eof, read_failed, FrameError, read_failure, unexpected_json, header_line_too_long,
  mid_header, header_block_too_large, missing_length, invalid_header_line, duplicate_length,
  invalid_length, over_limit, mid_body, Read, frame, clean_eof, fatal, Slice, line, full, ended,
  read_slice, reader_buffer_size, begin, trim_eol, split_at,
}

abbrev pub max_header_bytes : ℕ
max_header_bytes = 8192

-- One header line and the stream behind it, the clean end of the stream, or an error.
pub data HeaderLine : Type 0 where
  header_line : Bytes → Bytes → HeaderLine
  no_line : HeaderLine
  bad_line : FrameError → HeaderLine

-- The flag says that no byte of the header block was read yet.
unfoldable pub line_of : Ending → Bool → Slice → HeaderLine
line_of ending first (line l rest) = header_line l rest
line_of ending first (full l rest) = bad_line header_line_too_long
line_of eof true (ended []) = no_line
line_of eof first (ended l) = bad_line mid_header
line_of read_failed first (ended l) = bad_line read_failure

unfoldable pub read_header_line : Ending → Bool → Bytes → HeaderLine
unfolding line_of
read_header_line ending first s = line_of ending first (read_slice reader_buffer_size s)

pub data Parsed : Type 0 where
  content_length : Option ℕ → Parsed
  refused : FrameError → Parsed

-- The value of a Content-Length header.
check_length : ℕ → Option ℤ → Parsed
check_length max_size none = refused invalid_length
check_length max_size (some (negsuc n)) = refused invalid_length
check_length max_size (some (pos n)) =
    if ltb max_size n then refused over_limit else content_length (some n)

set_length : ℕ → Option ℕ → Bytes → Parsed
unfolding check_length
set_length max_size (some n) value = refused duplicate_length
set_length max_size none value = check_length max_size (parse_int (trim_space value))

-- What a header line that is not blank makes of the length known so far.
unfoldable pub parse_header : ℕ → Option ℕ → Bytes → Parsed
unfolding set_length
parse_header max_size len trimmed = elim (split_at b':' trimmed) [
  | none ↦ refused invalid_header_line
  | some (name, value) ↦
      if not (equal_fold (trim_space name) (codes "Content-Length"))
      then content_length len
      else set_length max_size len value
]

-- `io.ReadFull` on a buffer of the announced length.
unfoldable pub read_body : Ending → ℕ → Bytes → Read
read_body eof n s = if ltb (length s) n then fatal mid_body else frame (take n s) (drop n s)
read_body read_failed n s =
    if ltb (length s) n then fatal read_failure else frame (take n s) (drop n s)

unfoldable pub end_of_block : Ending → Option ℕ → Bytes → Read
unfolding read_body
end_of_block ending none s = fatal missing_length
end_of_block ending (some n) s = read_body ending n s

-- The header loop. `none` is the end of the fuel, which `max_header_bytes + 1` rounds never meet.
unfoldable pub read_headers : ℕ → ℕ → Ending → Option ℕ → ℕ → Bool → Bytes → Option Read
unfolding end_of_block
read_headers zero max_size ending len header_bytes first s = none
read_headers (suc fuel) max_size ending len header_bytes first s =
    elim (read_header_line ending first s) [
      | no_line ↦ some clean_eof
      | bad_line e ↦ some (fatal e)
      | header_line l rest ↦
          let total = header_bytes + length l in
          let next : Option Read = elim (parse_header max_size len (trim_eol l)) [
            | refused e ↦ some (fatal e)
            | content_length len' ↦ read_headers fuel max_size ending len' total false rest
          ] in
          if ltb max_header_bytes total
          then some (fatal header_block_too_large)
          else if is_nil (trim_eol l)
          then some (end_of_block ending len rest)
          else next
    ]

-- What `Peek(1)` shows decides before any header is read.
unfoldable pub sniff : ℕ → Ending → Bytes → Option Read
sniff max_size eof [] = some clean_eof
sniff max_size read_failed [] = some (fatal read_failure)
sniff max_size ending (c ∷ s) =
    let block = read_headers (max_header_bytes + 1) max_size ending none 0 true (c ∷ s) in
    if c == b'{' || c == b'[' then some (fatal unexpected_json) else block

unfoldable pub read_frame : Bool → ℕ → Ending → Bytes → Option Read
unfolding sniff
read_frame started max_size ending s = sniff max_size ending (begin started s)

unfoldable pub write_frame : Bytes → Bytes
write_frame body = codes "Content-Length: " ++ print (length body) ++ codes "\r\n\r\n" ++ body

write_text : write_frame (codes "{}") ≡ codes "Content-Length: 2\r\n\r\n{}"
unfolding write_frame print
write_text = refl

read_text :
    read_frame false 100 eof (codes "content-length : +2\nX: y\r\n\n{}rest")
    ≡ some (frame (codes "{}") (codes "rest"))
unfolding read_frame read_headers read_header_line read_slice parse_header trim_eol split_at
    equal_fold trim_space parse_int begin
read_text = refl
