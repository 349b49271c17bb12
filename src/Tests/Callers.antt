-- ===== src/Tests/Callers.antt =====
-- Calls and batches over HTTP, with a server that answers out of order.
use golang_jsonrpc.Prelude.{
  ℕ, suc, ◌≡◌, ◌↔◌, refl, arith, List, [], ◌∷◌, none, some, Option, Bytes, codes, true, false,
}
use golang_jsonrpc.Stdio.Stream.{eof}
use golang_jsonrpc.Text.Decimal.{print}
use golang_jsonrpc.Rpc.Types.{Request, Response, version_2_0}
use golang_jsonrpc.Prelude.Maps.{insert, lookup, delete}
use golang_jsonrpc.Caller.{
  marshal_params, id_of, drawn, batch_result_from_response, Params, no_value, raw_value, Spec,
  BatchResult, zero_result, batch_requests, marshal_requests,
}
use golang_jsonrpc.Caller.Requests.{spec_ids, Fresh, counter-Fresh}
use golang_jsonrpc.Http.Client.{
  Exchange, answered, HttpClient, new_http_client, Reader, entries, ok, over_batch_limit,
  read_limited, expect, scan_entries, keep_response, fill_unanswered, call_batch, http_call, post,
  post_raw,
}
use golang_jsonrpc.Http.Client.Aligned.{aligned_results}
use golang_jsonrpc.Http.Client.Answered.{call_batch-returns}
use golang_jsonrpc.Http.Client.Call.{Replied, http_call-Replied}
use golang_jsonrpc.Tests.Fixtures.{codec}

abbrev client : HttpClient
client = new_http_client []

abbrev first_spec : Spec
first_spec = record { method = codes "a"; params = no_value; is_notification = false }

abbrev other_specs : List Spec
other_specs =
    record { method = codes "b"; params = raw_value (some (codes "[1]")); is_notification = true }
    ∷ record { method = codes "c"; params = no_value; is_notification = false }
    ∷ []

abbrev two_of_three : List Spec
two_of_three = first_spec ∷ other_specs

abbrev response_with : Bytes → Bytes → Response
response_with id result = record {
  version = version_2_0;
  result = some (some result);
  error = none;
  id = some id;
}

-- The second call is answered first, then an id that nobody awaits.
abbrev sent_back : List (Option Response)
sent_back =
    some (response_with (codes "2") (codes "20"))
    ∷ some (response_with (codes "9") (codes "90"))
    ∷ some (response_with (codes "1") (codes "10"))
    ∷ []

abbrev reader : Reader
reader = record {
  decode_response = λ body. some (response_with (codes "1") body);
  open_array = λ body. entries sent_back;
}

abbrev body : Bytes
body = codes "[]"

abbrev web : Bytes → Exchange
web sent = answered 200 body eof

abbrev draw : ℕ → Bytes
draw i = print (suc i)

draw-Fresh : Fresh 3 draw
draw-Fresh = counter-Fresh 3 (λ i. suc i) (λ i h. omega arith) (λ i j a b e. omega arith)

abbrev requests : List Request
requests =
    record { version = version_2_0; method = codes "a"; params = none; id = some (codes "1") }
    ∷ record { version = version_2_0; method = codes "b"; params = some (codes "[1]"); id = none }
    ∷ record { version = version_2_0; method = codes "c"; params = none; id = some (codes "2") }
    ∷ []

requests_text : batch_requests draw 0 two_of_three ≡ some requests
unfolding batch_requests golang_jsonrpc.Caller.marshal_params golang_jsonrpc.Caller.id_of print
    golang_jsonrpc.Caller.drawn
requests_text = refl

body_text : post_raw client (web (marshal_requests codec requests)) ≡ ok body
unfolding post_raw golang_jsonrpc.Http.Client.read_limited new_http_client
body_text = refl

call_batch-returns_example :
    call_batch codec reader web client draw two_of_three
    ≡ ok (aligned_results reader (spec_ids draw 0 two_of_three) body)
unfolding over_batch_limit new_http_client
call_batch-returns_example =
    call_batch-returns codec reader web client draw first_spec other_specs requests b'[' (codes "]")
      sent_back draw-Fresh refl requests_text body_text refl (tt, (tt, (tt, tt)))

abbrev results : List BatchResult
results =
    record { result = some (codes "10"); error = none }
    ∷ zero_result
    ∷ record { result = some (codes "20"); error = none }
    ∷ []

results_text : call_batch codec reader web client draw two_of_three ≡ ok results
unfolding call_batch over_batch_limit new_http_client batch_requests marshal_params post_raw
    read_limited expect id_of insert print drawn scan_entries keep_response lookup delete
    fill_unanswered batch_result_from_response
results_text = refl

http_call-Replied_example :
    (http_call codec reader web client (codes "a") no_value (codes "1") ≡ ok (some body))
    ↔ Replied reader
        (codes "1")
        (post codec reader web client (codes "a") no_value (some (codes "1")))
        (some body)
http_call-Replied_example =
    http_call-Replied codec reader web client (codes "a") no_value (codes "1") (some body)
