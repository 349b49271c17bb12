-- ===== src/Tests/Client.antt =====
-- A client with one call, and its reply.
use golang_jsonrpc.Prelude.{ℕ, ◌≡◌, refl, true, List, [], ◌∷◌, Option, none, some, Bytes, codes}
use golang_jsonrpc.Stdio.Stream.{frame}
use golang_jsonrpc.Rpc.Types.{Request, Response}
use golang_jsonrpc.Stdio.Client.{Client, new_client, register, close, on_read}
use golang_jsonrpc.Stdio.Client.Run.{registers, reads, done, next}
use golang_jsonrpc.Stdio.Client.{wrote}
use golang_jsonrpc.Stdio.Client.Calls.{end_call, end_call-own}
use golang_jsonrpc.Stdio.Client.Once.{AtMostOne, Run-AtMostOne}

-- Every frame is the reply to the first call.
abbrev decode_response : Bytes → Option Response
decode_response s = some (record {
  version = codes "2.0";
  result = some (some (codes "7"));
  error = none;
  id = some (codes "1");
})

abbrev decode_request : Bytes → Option Request
decode_request s = none

abbrev waiting : Client
waiting = register new_client

abbrev answered : Client
answered = (on_read decode_response decode_request true (frame (codes "{}") []) waiting).0

Run-AtMostOne_example : AtMostOne 1 (answered.inbox 1)
Run-AtMostOne_example = Run-AtMostOne decode_response decode_request 1 (
    next (registers new_client) (next (reads true (frame (codes "{}") []) waiting) (done answered)))

end_call-own_example :
    (r : Response) × (answered.inbox 1 ≡ r ∷ []) × (r.error ≡ none) × (r.id ≡ some (codes "1"))
unfolding end_call on_read register golang_jsonrpc.Text.Space.trim_space
    golang_jsonrpc.Stdio.Client.deliver golang_jsonrpc.Prelude.Maps.lookup
    golang_jsonrpc.Prelude.Maps.insert golang_jsonrpc.Text.Decimal.print
    golang_jsonrpc.Stdio.Client.send
end_call-own_example =
    end_call-own decode_response decode_request 1 (some (codes "7"))
      (next (registers new_client)
        (next (reads true (frame (codes "{}") []) waiting) (done answered)))
      refl
