-- ===== src/Http/Accepted.antt =====
-- Which HTTP requests reach the dispatcher.
use golang_jsonrpc.Prelude.{
  ◌≤◌, ◌≡◌, ◌⊎◌, inl, inr, refl, Bool, true, false, [], Option, Bytes, bytes_eq, codes, ℤ,
  if◌then◌else◌, length, arith, append-nil,
}
use golang_jsonrpc.Stdio.Stream.{Ending, eof, read_failed}
use golang_jsonrpc.Rpc.Types.{M}
use golang_jsonrpc.Http.{
  Handler, HttpRequest, HttpResponse, over_cap, too_large, read_to, read_body, reply, is_acceptable,
  serve_body, serve_post, serve_method, serve_http,
}

module _ (media_type : Bytes → Option Bytes) (rpc : Bytes → M (Option Bytes)) where
  -- A request that is refused: with an error status, and with no event of the dispatcher.
  abbrev pub IsRefused : M HttpResponse → Type 0
  IsRefused m = (400 ≤ m.0.status) × (m.1 ≡ [])

  -- A request that is served: the whole body is what the dispatcher was called with, once.
  abbrev pub IsServed : Bytes → M HttpResponse → Type 0
  IsServed body m = (m.0 ≡ reply (rpc body).0) × (m.1 ≡ (rpc body).1)

  pub record IsAccepted (cap : ℤ) (r : HttpRequest) : Type 0 where
    pub is_post : bytes_eq r.method (codes "POST") ≡ true
    pub is_json : is_acceptable media_type r.content_type ≡ true
    pub within_cap : over_cap cap (length r.body) ≡ false
    pub whole : r.ending ≡ eof

  -- Accepted and served, or not accepted and refused.
  abbrev pub Outcome : ℤ → HttpRequest → M HttpResponse → Type 0
  Outcome cap r m = (IsAccepted cap r × IsServed r.body m) ⊎ ((IsAccepted cap r → ⊥) × IsRefused m)

  body-Outcome :
      (cap : ℤ) (r : HttpRequest) (e : Ending) (over : Bool)
      → bytes_eq r.method (codes "POST") ≡ true
      → is_acceptable media_type r.content_type ≡ true
      → r.ending ≡ e
      → over_cap cap (length r.body) ≡ over
      → Outcome cap r (serve_body media_type rpc (if over then too_large else read_to e r.body))
  unfolding serve_body read_to
  body-Outcome cap r e true p j h o = inr ((λ a. cc (a.within_cap, o)), (omega arith, refl))
  body-Outcome cap r eof false p j h o = inl (
    record { is_post = p; is_json = j; within_cap = o; whole = h },
    (refl, append-nil (rpc r.body).1),
  )
  body-Outcome cap r read_failed false p j h o = inr ((λ a. cc (a.whole, h)), (omega arith, refl))

  post-Outcome :
      (cap : ℤ) (r : HttpRequest) (j : Bool)
      → bytes_eq r.method (codes "POST") ≡ true
      → is_acceptable media_type r.content_type ≡ j
      → Outcome cap r (serve_post media_type rpc cap r j)
  unfolding serve_post read_body
  post-Outcome cap r true p h = body-Outcome cap r r.ending _ p h refl refl
  post-Outcome cap r false p h = inr ((λ a. cc (a.is_json, h)), (omega arith, refl))

  method-Outcome :
      (cap : ℤ) (r : HttpRequest) (p : Bool)
      → bytes_eq r.method (codes "POST") ≡ p
      → Outcome cap r (serve_method media_type rpc cap r p)
  unfolding serve_method
  method-Outcome cap r true h = post-Outcome cap r _ h refl
  method-Outcome cap r false h = inr ((λ a. cc (a.is_post, h)), (omega arith, refl))

  -- The dispatcher is called exactly for the requests that are POSTed, name no other content type
  -- than JSON, and have a body that could be read and is within the cap: once, on the whole body, and
  -- its reply is sent. Every other request draws an error status without a call.
  pub serve_http-Outcome :
      (h : Handler) (r : HttpRequest) → Outcome h.max_body_size r (serve_http media_type rpc h r)
  unfolding serve_http
  serve_http-Outcome h r = method-Outcome h.max_body_size r _ refl
