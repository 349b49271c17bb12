-- ===== src/Http.antt =====
-- jsonrpchttp/handler.go: the HTTP handler around the dispatcher.
pub mod Accepted
pub mod Client
pub mod Fiber
use golang_jsonrpc.Prelude.{
  ℕ, zero, suc, ◌≡◌, refl, Bool, true, false, ◌&&◌, not, List, [], ◌∷◌, ◌++◌, Option, none, some,
  Bytes, bytes_eq, codes, ℤ, pos, negsuc, if◌then◌else◌, ltb, length,
}
use golang_jsonrpc.Stdio.Stream.{Ending, eof, read_failed}
use golang_jsonrpc.Rpc.Types.{M, pure, ◌>>=◌}

-- The body is what a reader of it would give, to its end.
pub record HttpRequest : Type 0 where
  pub method : Bytes
  -- the header Content-Type; empty if it is absent
  pub content_type : Bytes
  pub body : Bytes
  pub ending : Ending

pub record HttpResponse : Type 0 where
  pub status : ℕ
  pub headers : List (Bytes × Bytes)
  pub body : Bytes

-- `http.Error`, behind the headers that were set before.
unfoldable pub http_error : List (Bytes × Bytes) → Bytes → ℕ → HttpResponse
http_error headers text status = record {
  status = status;
  headers =
      headers
      ++ ((codes "Content-Type", codes "text/plain; charset=utf-8")
          ∷ (codes "X-Content-Type-Options", codes "nosniff")
          ∷ []);
  body = text ++ b'\n' ∷ [];
}

abbrev pub default_max_body_size : ℤ
default_max_body_size = pos 1_048_576

pub record Handler : Type 0 where
  pub max_body_size : ℤ

-- `Option` and `WithMaxBodySize`.
abbrev pub with_max_body_size : ℤ → Handler → Handler
with_max_body_size n h = record h { max_body_size = n }

abbrev apply_options : List (Handler → Handler) → Handler → Handler
apply_options [] h = h
apply_options (opt ∷ opts) h = apply_options opts (opt h)

-- `Handler`
abbrev pub handler : List (Handler → Handler) → Handler
handler opts = apply_options opts (record { max_body_size = default_max_body_size })

-- Whether a cap is set and the body is longer.
unfoldable pub over_cap : ℤ → ℕ → Bool
over_cap (pos zero) n = false
over_cap (pos (suc m)) n = ltb (suc m) n
over_cap (negsuc m) n = false

pub data ReadBody : Type 0 where
  read_all : Bytes → ReadBody
  too_large : ReadBody
  unreadable : ReadBody

read_to : Ending → Bytes → ReadBody
read_to eof body = read_all body
read_to read_failed body = unreadable

-- `io.ReadAll`, through `http.MaxBytesReader` if there is a cap.
unfoldable pub read_body : ℤ → Ending → Bytes → ReadBody
unfolding read_to
read_body cap ending body = if over_cap cap (length body) then too_large else read_to ending body

abbrev no_content : HttpResponse
no_content = record { status = 204; headers = []; body = [] }

-- The reply of the dispatcher, if it has bytes.
unfoldable pub reply : Option Bytes → HttpResponse
reply none = no_content
reply (some []) = no_content
reply (some (c ∷ resp)) = record {
  status = 200;
  headers =
      (codes "Content-Type", codes "application/json")
      ∷ (codes "Cache-Control", codes "no-store")
      ∷ (codes "X-Content-Type-Options", codes "nosniff")
      ∷ [];
  body = c ∷ resp;
}

is_json : Option Bytes → Bool
is_json none = false
is_json (some media_type) = bytes_eq media_type (codes "application/json")

-- `media_type` is `mime.ParseMediaType`, with `none` for its error.
module _ (media_type : Bytes → Option Bytes) where
  -- A content type that is absent is tolerated.
  unfoldable pub is_acceptable : Bytes → Bool
  unfolding is_json
  is_acceptable [] = true
  is_acceptable (c ∷ ct) = is_json (media_type (c ∷ ct))

  module _ (rpc : Bytes → M (Option Bytes)) where
    serve_body : ReadBody → M HttpResponse
    unfolding reply http_error
    serve_body (read_all payload) = do resp ← rpc payload; pure (reply resp)
    serve_body too_large = pure (http_error [] (codes "request body too large") 413)
    serve_body unreadable = pure (http_error [] (codes "cannot read request body") 400)

    serve_post : ℤ → HttpRequest → Bool → M HttpResponse
    unfolding serve_body read_body
    serve_post cap r true = serve_body (read_body cap r.ending r.body)
    serve_post cap r false =
        pure (http_error [] (codes "Content-Type must be application/json") 415)

    serve_method : ℤ → HttpRequest → Bool → M HttpResponse
    unfolding serve_post is_acceptable
    serve_method cap r true = serve_post cap r (is_acceptable r.content_type)
    serve_method cap r false = pure (
        http_error ((codes "Allow", codes "POST") ∷ []) (codes "JSON-RPC requests must be POSTed")
          405)

    -- `ServeHTTP`
    unfoldable pub serve_http : Handler → HttpRequest → M HttpResponse
    unfolding serve_method
    serve_http h r = serve_method h.max_body_size r (bytes_eq r.method (codes "POST"))
