-- ===== src/Stdio/Ndjson.antt =====
-- jsonrpcstdio/framing.go: `ndjsonFramer`, one JSON message per line.
pub mod Total
pub mod RoundTrip
pub mod Written
use golang_jsonrpc.Prelude.{
  ℕ, zero, suc, ◌+◌, ◌-◌, ◌≤◌, ◌<◌, ◌≡◌, ◌≢◌, refl, Bool, true, false, not, ◌&&◌, ◌||◌, List, [],
  ◌∷◌, ◌++◌, Option, none, some, arith, Bytes, ◌==◌, ltb, leb, if◌then◌else◌, length, take, drop,
  All, codes, is_nil,
}
use golang_jsonrpc.Text.Space.{equal_fold}
use golang_jsonrpc.Json.Compact.{compact}
use golang_jsonrpc.Stdio.Stream.{
  Ending, eof, read_failed, FrameError, read_failure, over_limit, unexpected_header, Read, frame,
  clean_eof, fatal, Slice, line, full, ended, read_slice, reader_buffer_size, begin, trim_eol,
}

abbrev pub content_length_prefix : Bytes
content_length_prefix = codes "Content-Length:"

unfoldable pub is_header : Bytes → Bool
is_header l =
    leb (length content_length_prefix) (length l)
    && equal_fold (take (length content_length_prefix) l) content_length_prefix

-- What is made of a complete line; a blank one is skipped, and `next` is read.
unfoldable pub accept : ℕ → Bytes → Bytes → Option Read → Option Read
accept max_size l rest next =
    if is_nil l
    then next
    else if ltb max_size (length l)
    then some (fatal over_limit)
    else if is_header l
    then some (fatal unexpected_header)
    else some (frame l rest)

-- The stream has ended behind `acc`: an unterminated line is a frame too.
unfoldable pub at_end : ℕ → Ending → Bytes → Option Read → Option Read
at_end max_size ending acc next =
    if ltb (max_size + 2) (length acc) then some (fatal over_limit) else elim ending [
      | read_failed ↦ some (fatal read_failure)
      | eof ↦ if is_nil acc then some clean_eof else accept max_size (trim_eol acc) [] next
    ]

-- The two loops of `ReadFrame`: `acc` is the part of the line that is already read. `none` is the
-- end of the fuel.
unfoldable pub read_lines : ℕ → ℕ → Ending → Bytes → Bytes → Option Read
read_lines zero max_size ending acc s = none
read_lines (suc fuel) max_size ending acc s = elim (read_slice reader_buffer_size s) [
  | line l rest ↦
      let next = read_lines fuel max_size ending [] rest in
      if ltb (max_size + 2) (length (acc ++ l))
      then some (fatal over_limit)
      else accept max_size (trim_eol (acc ++ l)) rest next
  | full l rest ↦
      let next = read_lines fuel max_size ending (acc ++ l) rest in
      if ltb (max_size + 2) (length (acc ++ l)) then some (fatal over_limit) else next
  | ended l ↦
      let next = read_lines fuel max_size ending [] [] in at_end max_size ending (acc ++ l) next
]

abbrev pub read_fuel : Bytes → ℕ
read_fuel s = suc (length s + length s)

unfoldable pub read_frame : Bool → ℕ → Ending → Bytes → Option Read
read_frame started max_size ending s =
    read_lines (read_fuel (begin started s)) max_size ending [] (begin started s)

-- `bytes.IndexByte(data, '\n') >= 0`
unfoldable pub has_newline : Bytes → Bool
has_newline [] = false
has_newline (c ∷ s) = c == b'\n' || has_newline s

write_compact : Option Bytes → Option Bytes
write_compact none = none
write_compact (some l) = if has_newline l then none else some (l ++ b'\n' ∷ [])

-- The bytes of the frame; `none` is `errUnframeable`, and nothing is written.
unfoldable pub write_frame : Bytes → Option Bytes
unfolding write_compact
write_frame body =
    if has_newline body then write_compact (compact body) else some (body ++ b'\n' ∷ [])

read_text :
    read_frame false 10 eof (codes "\r\n{}\r\nrest") ≡ some (frame (codes "{}") (codes "rest"))
unfolding read_frame read_lines read_slice trim_eol begin accept is_header
read_text = refl
