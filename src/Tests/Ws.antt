-- ===== src/Tests/Ws.antt =====
-- A WebSocket connection with one message.
use golang_jsonrpc.Prelude.{refl, false, true, [], ◌∷◌, Option, some, Bytes, codes, arith}
use golang_jsonrpc.Ws.Serve.{
  WsServer, reading, draining, returned, WsConn, connected, ws_write, ws_respond, call_ended, reads,
  read_fails, spawns, answers, returns, Run, here, next,
}
use golang_jsonrpc.Ws.Serve.Handled.{HandledAll, Run-HandledAll}

abbrev socket : WsServer
socket = record { max_message_size = 100; max_calls = 2; write_timeout = 1; origin_patterns = [] }

abbrev ping : Bytes
ping = codes "ping"

abbrev pong : Bytes → Option Bytes
pong b = some (codes "pong")

abbrev one_taken : WsConn
one_taken = record (connected (ping ∷ [])) { inbound = [] }

abbrev in_call : WsConn
in_call = record one_taken { in_flight = ping ∷ [] }

abbrev closing : WsConn
closing = record in_call { canceled = true }

-- The peer closes before the call has ended, and its reply is lost.
abbrev over : WsConn
over = record closing { in_flight = []; handled = ping ∷ [] }

socket_run : Run socket pong reading (connected (ping ∷ [])) returned over
unfolding ws_write ws_respond call_ended
socket_run =
    next
      (next
        (next
          (next
            (next (here reading (connected (ping ∷ [])))
              (reads (connected (ping ∷ [])) ping [] refl))
            (spawns one_taken ping (omega arith)))
          (read_fails in_call))
        (answers draining closing [] ping [] false refl))
      (returns over refl)

Run-HandledAll_example : HandledAll socket (ping ∷ []) pong over
Run-HandledAll_example = Run-HandledAll socket (ping ∷ []) pong socket_run
