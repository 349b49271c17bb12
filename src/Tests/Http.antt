-- ===== src/Tests/Http.antt =====
-- An HTTP request to the server.
use golang_jsonrpc.Prelude.{◌∷◌, [], [], none, codes, pos}
use golang_jsonrpc.Stdio.Stream.{eof}
use golang_jsonrpc.Rpc.Raw.{handle_raw}
use golang_jsonrpc.Http.{HttpRequest, serve_http, handler, with_max_body_size}
use golang_jsonrpc.Http.Accepted.{Outcome, serve_http-Outcome}
use golang_jsonrpc.Tests.Fixtures.{codec, server, world}

abbrev post : HttpRequest
post = record { method = codes "POST"; content_type = []; body = codes "{}"; ending = eof }

serve_http-Outcome_example :
    Outcome
      (λ ct. none)
      (handle_raw codec server world 0)
      (pos 100)
      post
      (serve_http
        (λ ct. none)
        (handle_raw codec server world 0)
        (handler (with_max_body_size (pos 100) ∷ []))
        post)
serve_http-Outcome_example =
    serve_http-Outcome (λ ct. none) (handle_raw codec server world 0)
      (handler (with_max_body_size (pos 100) ∷ [])) post
