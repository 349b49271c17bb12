-- ===== src/Tests/Frames.antt =====
-- Frames of both kinds, whole and broken.
use golang_jsonrpc.Prelude.{
  ◌≡◌, ◌≢◌, refl, true, false, [], ◌∷◌, ◌++◌, none, some, Bytes, codes, pos, arith,
}
use golang_jsonrpc.Text.Decimal.{print, parse_int, parse_int-print}
use golang_jsonrpc.Json.Compact.{compact}
use golang_jsonrpc.Stdio.Stream.{eof, frame, NoNewline, trim_cr}
use golang_jsonrpc.Stdio.ContentLength
use golang_jsonrpc.Stdio.ContentLength.RoundTrip.{read_frame-write_frame}
use golang_jsonrpc.Stdio.ContentLength.Total.{read_frame_total}
use golang_jsonrpc.Stdio.Ndjson
use golang_jsonrpc.Stdio.Ndjson.{has_newline}
use golang_jsonrpc.Stdio.Ndjson.RoundTrip.{IsMessage, write_frame_line}
use golang_jsonrpc.Stdio.Ndjson.Written.{read_frame_written}
use golang_jsonrpc.Stdio.Ndjson.Total.{read_frame_finishes}

read_frame-write_frame_example :
    ContentLength.read_frame false 10 eof (ContentLength.write_frame (codes "{}") ++ codes "rest")
    ≡ some (frame (codes "{}") (codes "rest"))
read_frame-write_frame_example =
    read_frame-write_frame false 10 eof (codes "{}") (codes "rest") (omega arith) (omega arith)

read_frame_total_example : ContentLength.read_frame true 10 eof (codes "X: y") ≢ none
read_frame_total_example = read_frame_total true 10 eof (codes "X: y")

read_frame_finishes_example : Ndjson.read_frame true 10 eof (codes "{}") ≢ none
read_frame_finishes_example = read_frame_finishes true 10 eof (codes "{}")

braces-IsMessage : IsMessage 10 (codes "{}")
unfolding trim_cr Ndjson.is_header
braces-IsMessage = record {
  one_line = ((λ e. omega arith), ((λ e. omega arith), tt));
  not_blank = λ e. cc;
  no_return = refl;
  fits = omega arith;
  no_header = refl;
}

read_frame_written_example :
    (w : Bytes) × (Ndjson.write_frame (codes "{}") ≡ some w)
    × (Ndjson.read_frame false 10 eof (w ++ codes "rest")
        ≡ some (frame (codes "{}") (codes "rest")))
read_frame_written_example =
    read_frame_written false 10 eof (codes "{}") (codes "rest") braces-IsMessage (λ e. omega arith)

write_frame_line_example : (l : Bytes) × (codes "[1,2]\n" ≡ l ++ b'\n' ∷ []) × NoNewline l
unfolding Ndjson.write_frame has_newline compact golang_jsonrpc.Json.Scanner.step
    golang_jsonrpc.Json.Scanner.at_eof
write_frame_line_example = write_frame_line (codes "[1,\n2]") refl

parse_int-print_example : parse_int (print 42) ≡ some (pos 42)
parse_int-print_example = parse_int-print 42 (omega arith)
