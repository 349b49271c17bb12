-- ===== src/Http/Client/Call.antt =====
-- `Call` over HTTP: whose result it returns.
use golang_jsonrpc.Prelude.{
  ℕ, ◌≡◌, ◌≢◌, ◌⊎◌, ◌↔◌, inl, inr, refl, sym, ap, ◌∙◌, Bool, true, false, ◌&&◌, not, [], ◌∷◌,
  Option, none, some, Bytes, bytes_eq, bytes_eq_iff, if◌then◌else◌,
}
use golang_jsonrpc.Rpc.Types.{RawMessage, is_empty, ErrorObject, Response}
use golang_jsonrpc.Rpc.Wire.{Codec}
use golang_jsonrpc.Caller.{Params}
use golang_jsonrpc.Http.Client.{
  Exchange, HttpClient, rpc_error, wrong_id, Result, ok, err, Reader, id_text, call_result,
  call_body, post, http_call,
}

-- The result, nil if the member is absent.
abbrev pub result_or_nil : Option RawMessage → RawMessage
result_or_nil none = none
result_or_nil (some raw) = raw

-- A response that a call with this id takes for its own.
pub record IsOwn (id : Bytes) (r : Response) (raw : RawMessage) : Type 0 where
  pub no_error : r.error ≡ none
  pub same_id : (is_empty r.id ≡ true) ⊎ (id_text r.id ≡ id)
  pub result : raw ≡ result_or_nil r.result

-- The body that came back, and the response that it is.
pub record Replied (rd : Reader) (id : Bytes) (p : Result Bytes) (raw : RawMessage) : Type 0 where
  pub body : Bytes
  pub response : Response
  pub received : p ≡ ok body
  pub not_empty : body ≢ []
  pub decoded : rd.decode_response body ≡ some response
  pub own : IsOwn id response raw

ok_raw : {a b : RawMessage} → ok a ≡ ok b → a ≡ b
ok_raw e = cc

-- The tests of a response, in their order.
abbrev tests : Option ErrorObject → Bool → Bool → Option RawMessage → Result RawMessage
tests o a b res = elim o [
  | some e ↦ err (rpc_error e)
  | none ↦ if not a && not b then err wrong_id else elim res [ none ↦ ok none | some x ↦ ok x ]
]

passed :
    (o : Option ErrorObject) (a b : Bool) (res : Option RawMessage) (raw : RawMessage)
    → tests o a b res ≡ ok raw
    → (o ≡ none) × ((a ≡ true) ⊎ (b ≡ true)) × (raw ≡ result_or_nil res)
passed (some e) a b res raw h = cc
passed none false false res raw h = cc
passed none true b none raw h = (refl, inl refl, sym (ok_raw h))
passed none true b (some x) raw h = (refl, inl refl, sym (ok_raw h))
passed none false true none raw h = (refl, inr refl, sym (ok_raw h))
passed none false true (some x) raw h = (refl, inr refl, sym (ok_raw h))

passes :
    (o : Option ErrorObject) (a b : Bool) (res : Option RawMessage) (raw : RawMessage)
    → o ≡ none
    → (a ≡ true) ⊎ (b ≡ true)
    → raw ≡ result_or_nil res
    → tests o a b res ≡ ok raw
passes (some e) a b res raw n h r = cc
passes none false false res raw n (inl h) r = cc
passes none false false res raw n (inr h) r = cc
passes none true b none raw n h r = ap ok (sym r)
passes none true b (some x) raw n h r = ap ok (sym r)
passes none false true none raw n h r = ap ok (sym r)
passes none false true (some x) raw n h r = ap ok (sym r)

left_or : {A B C : Type 0} → (A → B) → C ⊎ A → C ⊎ B
left_or f (inl c) = inl c
left_or f (inr a) = inr (f a)

call_result-IsOwn :
    (id : Bytes) (r : Response) (raw : RawMessage)
    → (call_result id (some r) ≡ ok raw) ↔ IsOwn id r raw
unfolding call_result
call_result-IsOwn id r raw = (
  λ e.
      let t = passed r.error (is_empty r.id) (bytes_eq (id_text r.id) id) r.result raw e in
      record {
        no_error = t.0;
        same_id = left_or (bytes_eq_iff (id_text r.id) id).0 t.1;
        result = t.2;
      },
  λ o.
      passes r.error (is_empty r.id) (bytes_eq (id_text r.id) id) r.result raw o.no_error
        (left_or (bytes_eq_iff (id_text r.id) id).1 o.same_id) o.result,
)

module _ (rd : Reader) (id : Bytes) (raw : RawMessage) where
  replied :
      (b : ℕ) (body : Bytes) (o : Option Response)
      → rd.decode_response (b ∷ body) ≡ o
      → call_result id o ≡ ok raw
      → Replied rd id (ok (b ∷ body)) raw
  unfolding call_result
  replied b body none d e = cc
  replied b body (some r) d e = record {
    body = b ∷ body;
    response = r;
    received = refl;
    not_empty = λ x. cc;
    decoded = d;
    own = (call_result-IsOwn id r raw).0 e;
  }

  call_body-Replied :
      (p : Result Bytes) → call_body rd.decode_response id p ≡ ok raw → Replied rd id p raw
  unfolding call_body
  call_body-Replied (err x) e = cc
  call_body-Replied (ok []) e = cc
  call_body-Replied (ok (b ∷ body)) e = replied b body (rd.decode_response (b ∷ body)) refl e

  Replied-body :
      (body : Bytes) (r : Response)
      → body ≢ []
      → rd.decode_response body ≡ some r
      → IsOwn id r raw
      → call_body rd.decode_response id (ok body) ≡ ok raw
  unfolding call_body
  Replied-body [] r n d o = absurd (n refl)
  Replied-body (b ∷ body) r n d o = ap (call_result id) d ∙ (call_result-IsOwn id r raw).1 o

  Replied-call_body :
      (p : Result Bytes) → Replied rd id p raw → call_body rd.decode_response id p ≡ ok raw
  Replied-call_body p v =
      ap (call_body rd.decode_response id) v.received
      ∙ Replied-body v.body v.response v.not_empty v.decoded v.own

-- `Call` returns a result exactly if its exchange brought a body that is not empty and decodes to a
-- response with no error, with the id of this very call or with none; the result is that of the
-- response, or nil.
pub http_call-Replied :
    (k : Codec) (rd : Reader) (server : Bytes → Exchange) (c : HttpClient) (method : Bytes)
    (params : Params) (id : Bytes) (raw : RawMessage)
    → (http_call k rd server c method params id ≡ ok raw)
      ↔ Replied rd id (post k rd server c method params (some id)) raw
unfolding http_call
http_call-Replied k rd server c method params id raw = (
  call_body-Replied rd id raw (post k rd server c method params (some id)),
  Replied-call_body rd id raw (post k rd server c method params (some id)),
)
