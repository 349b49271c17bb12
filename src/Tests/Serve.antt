-- ===== src/Tests/Serve.antt =====
-- The theorems on `Serve` at concrete runs.
use golang_jsonrpc.Prelude.{
  ◌≡◌, refl, true, false, [], ◌∷◌, Option, some, Bytes, codes, pos, negsuc, arith,
}
use golang_jsonrpc.Stdio.Stream.{eof, frame, clean_eof, read_slice, trim_eol, trim_cr, begin}
use golang_jsonrpc.Stdio.Ndjson
use golang_jsonrpc.Stdio.Serve.{
  Server, Arguments, option_concurrent_calls, option_message_size, opened, open_server,
  framing_ndjson, new_server, with_max_concurrent_calls, framer_read, framer_write, nil, Pc, at_top,
  in_read, draining, acquiring, inline, returned, Chunk, reply, Conn, start, Io, whole, write,
  respond, stop_reading, result_of, ended,
}
use golang_jsonrpc.Stdio.Serve.Run.{
  goes_on, gets, meets_end, takes_over, answers_inline, returns, Run, here, next,
}
use golang_jsonrpc.Stdio.Serve.Replies.{replies, replies_to}
use golang_jsonrpc.Stdio.Serve.Result.{Answered, Run-Answered}
use golang_jsonrpc.Stdio.Serve.Ordered.{Fits, sent, Run-replies}
use golang_jsonrpc.Stdio.Serve.Serves.{serves}

abbrev line_server : Server
line_server = new_server framing_ndjson

abbrev ask : Bytes
ask = codes "{}"

abbrev answer : Bytes → Option Bytes
answer b = some (codes "1")

abbrev input : Bytes
input = codes "{}\n"

abbrev held_one : Conn
held_one = record (start input) { started = true; stream = [] }

abbrev answered_one : Conn
answered_one = record held_one { answered = ask ∷ []; wire = reply (codes "1\n") ∷ [] }

abbrev ended_one : Conn
ended_one = record answered_one { eof_clean = true; writer_closed = true }

input_text : framer_read line_server false eof input ≡ some (frame ask [])
unfolding framer_read Ndjson.read_frame Ndjson.read_lines read_slice begin Ndjson.accept trim_eol
    Ndjson.is_header
input_text = refl

input_end : framer_read line_server true eof [] ≡ some clean_eof
unfolding framer_read Ndjson.read_frame Ndjson.read_lines read_slice begin Ndjson.at_end
input_end = refl

half_run : Run line_server eof answer at_top (start input) at_top answered_one
unfolding ended respond framer_write Ndjson.write_frame Ndjson.has_newline
half_run =
    next
      (next
        (next (next (here at_top (start input)) (goes_on (start input) refl))
          (gets (start input) ask [] input_text))
        (takes_over held_one ask refl))
      (answers_inline held_one ask whole)

whole_run : Run line_server eof answer at_top (start input) (returned nil) ended_one
unfolding stop_reading result_of
whole_run =
    next (next (next half_run (goes_on answered_one refl)) (meets_end answered_one input_end))
      (returns (record answered_one { eof_clean = true }) refl)

ask-Fits : Fits line_server ask
unfolding trim_cr Ndjson.is_header
ask-Fits = (
  record {
    one_line = ((λ e. omega arith), ((λ e. omega arith), tt));
    not_blank = λ e. cc;
    no_return = refl;
    fits = omega arith;
    no_header = refl;
  },
  omega arith,
)

Run-Answered_example :
    (ended_one.in_flight ≡ [])
    × (ended_one.writer_closed ≡ true)
    × (nil ≡ nil → Answered line_server eof answer input ended_one)
Run-Answered_example = Run-Answered line_server eof answer input (omega arith) whole_run

Run-replies_example : replies ended_one.wire ≡ replies_to line_server answer (ask ∷ [])
unfolding sent golang_jsonrpc.Stdio.Serve.Ordered.framed framer_write Ndjson.write_frame
    Ndjson.has_newline
Run-replies_example = Run-replies line_server eof answer (ask ∷ []) refl (ask-Fits, tt) whole_run

abbrev arguments : Arguments
arguments = record {
  has_rpc = true;
  framing_number = 2;
  has_reader = true;
  has_writer = true;
  options = option_concurrent_calls (negsuc 3) ∷ option_message_size (pos 10) ∷ [];
}

arguments_text : open_server arguments ≡ opened (record line_server { max_message_size = 10 })
unfolding open_server golang_jsonrpc.Stdio.Serve.framing_of golang_jsonrpc.Stdio.Serve.apply_all
    golang_jsonrpc.Stdio.Serve.apply_option
arguments_text = refl

serves_example :
    (c : Conn) × Run line_server eof answer at_top
      (start (sent line_server (ask ∷ [])))
      (returned nil)
      c
    × (replies c.wire ≡ replies_to line_server answer (ask ∷ []))
serves_example = serves line_server answer refl (ask ∷ []) (ask-Fits, tt)
