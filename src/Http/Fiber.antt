-- ===== src/Http/Fiber.antt =====
-- jsonrpcfiber/handler.go and jsonrpcfiberv3/handler.go: the same handler for two versions of the Fiber
-- framework, which reads the request and writes the answer.
use golang_jsonrpc.Prelude.{
  ◌≡◌, ◌⊎◌, inl, inr, refl, append-nil, Bool, true, false, List, [], ◌∷◌, Option, none, some, Bytes,
  codes, ℕ,
}
use golang_jsonrpc.Text.Space.{equal_fold}
use golang_jsonrpc.Rpc.Types.{M, pure, ◌>>=◌}
use golang_jsonrpc.Http.{is_acceptable}

-- The headers are empty if they are absent; the body is that of the context.
pub record FiberRequest : Type 0 where
  pub content_type : Bytes
  pub content_encoding : Bytes
  pub body : Bytes

-- `SendStatus`, or headers, a status and a body.
pub data FiberResponse : Type 0 where
  send_status : ℕ → FiberResponse
  send_body : List (Bytes × Bytes) → ℕ → Bytes → FiberResponse

unfoldable pub fiber_reply : Option Bytes → FiberResponse
fiber_reply none = send_status 204
fiber_reply (some []) = send_status 204
fiber_reply (some (b ∷ resp)) =
    send_body
      ((codes "Content-Type", codes "application/json")
        ∷ (codes "Cache-Control", codes "no-store")
        ∷ (codes "X-Content-Type-Options", codes "nosniff")
        ∷ [])
      200 (b ∷ resp)

-- A body that is compressed is not taken.
unfoldable pub is_plain : Bytes → Bool
is_plain [] = true
is_plain (b ∷ encoding) = equal_fold (b ∷ encoding) (codes "identity")

module _ (media_type : Bytes → Option Bytes) (rpc : Bytes → M (Option Bytes)) where
  fiber_plain : Bytes → Bool → M FiberResponse
  unfolding fiber_reply
  fiber_plain body true = do resp ← rpc body; pure (fiber_reply resp)
  fiber_plain body false = pure (send_status 415)

  fiber_accepted : FiberRequest → Bool → M FiberResponse
  unfolding fiber_plain
  fiber_accepted r true = fiber_plain r.body (is_plain r.content_encoding)
  fiber_accepted r false = pure (send_status 415)

  -- `Handler`, for Fiber v2 and for Fiber v3.
  unfoldable pub serve_fiber : FiberRequest → M FiberResponse
  unfolding fiber_accepted
  serve_fiber r = fiber_accepted r (is_acceptable media_type r.content_type)

  unfoldable pub serve_fiber_v3 : FiberRequest → M FiberResponse
  unfolding fiber_accepted
  serve_fiber_v3 r = fiber_accepted r (is_acceptable media_type r.content_type)

  -- A request whose body is JSON as it stands.
  pub record IsPlainJson (r : FiberRequest) : Type 0 where
    pub is_json : is_acceptable media_type r.content_type ≡ true
    pub plain : is_plain r.content_encoding ≡ true

  abbrev pub FiberOutcome : FiberRequest → M FiberResponse → Type 0
  FiberOutcome r m =
      (IsPlainJson r × (m.0 ≡ fiber_reply (rpc r.body).0) × (m.1 ≡ (rpc r.body).1))
      ⊎ ((IsPlainJson r → ⊥) × (m ≡ (send_status 415, [])))

  plain-FiberOutcome :
      (r : FiberRequest) (p : Bool)
      → is_acceptable media_type r.content_type ≡ true
      → is_plain r.content_encoding ≡ p
      → FiberOutcome r (fiber_plain r.body p)
  unfolding fiber_plain
  plain-FiberOutcome r true j h =
      inl (record { is_json = j; plain = h }, refl, append-nil (rpc r.body).1)
  plain-FiberOutcome r false j h = inr ((λ a. cc (a.plain, h)), refl)

  accepted-FiberOutcome :
      (r : FiberRequest) (j : Bool)
      → is_acceptable media_type r.content_type ≡ j
      → FiberOutcome r (fiber_accepted r j)
  unfolding fiber_accepted
  accepted-FiberOutcome r true h = plain-FiberOutcome r (is_plain r.content_encoding) h refl
  accepted-FiberOutcome r false h = inr ((λ a. cc (a.is_json, h)), refl)

  -- For either version: the dispatcher is called exactly for the requests that name no other content
  -- type than JSON and no content encoding but the identity, once, on the body, and its reply is
  -- sent; every other request draws the status 415 without a call.
  pub serve_fiber-FiberOutcome :
      (r : FiberRequest) → FiberOutcome r (serve_fiber r) × FiberOutcome r (serve_fiber_v3 r)
  unfolding serve_fiber serve_fiber_v3
  serve_fiber-FiberOutcome r = (
    accepted-FiberOutcome r (is_acceptable media_type r.content_type) refl,
    accepted-FiberOutcome r (is_acceptable media_type r.content_type) refl,
  )
