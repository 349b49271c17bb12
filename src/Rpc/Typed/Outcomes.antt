-- ===== src/Rpc/Typed/Outcomes.antt =====
-- What a typed handler makes of its params.
use golang_jsonrpc.Prelude.{
  ◌≡◌, ◌⊎◌, inl, inr, refl, ℕ, false, Bool-cases, [], ◌∷◌, none, some, Bytes, codes,
}
use golang_jsonrpc.Rpc.Types.{
  RawMessage, GoError, wrap, Outcome, returned, panicked, Returned, ok_code, internal_error_code,
  invalid_params_error_code,
}
use golang_jsonrpc.Rpc.Typed.{
  Decoding, decoded, failed, Encoding, encoded, unencoded, Reply, result, refusal, encode_result,
  finish_call, is_empty_json_array, call_with, call_decoded, typed,
}
use golang_jsonrpc.Rpc.Typed.EmptyList.{IsEmptyList, is_empty_json_array-IsEmptyList}

module _ {C P R : Type 0} (decode : Bytes → Decoding P) (zero_params : P) (encode : R → Encoding)
    (fn : C → P → Outcome (Reply R)) where
  -- What the params of a request come to: a value for the handler, or a refusal.
  pub data Takes : RawMessage → P ⊎ GoError → Type 0 where
    absent : Takes none (inl zero_params)
    empty : Takes (some []) (inl zero_params)
    reads : (b : ℕ) (s : Bytes) (p : P) → decode (b ∷ s) ≡ decoded p → Takes (some (b ∷ s)) (inl p)
    forgives :
        (b : ℕ) (s : Bytes) (e : GoError)
        → decode (b ∷ s) ≡ failed e
        → IsEmptyList (b ∷ s)
        → Takes (some (b ∷ s)) (inl zero_params)
    refuses :
        (b : ℕ) (s : Bytes) (e : GoError)
        → decode (b ∷ s) ≡ failed e
        → ¬ IsEmptyList (b ∷ s)
        → Takes (some (b ∷ s)) (inr e)

  -- What the server gets for what the function does: its panic, its error as an internal one, or its
  -- result, encoded, and an internal error if it cannot be encoded.
  pub data Ends : Outcome (Reply R) → Outcome Returned → Type 0 where
    panics : (text : Bytes) → Ends (panicked text) (panicked text)
    errs :
        (e : GoError)
        → Ends
            (returned (refusal e))
            (returned (record { result = none; code = internal_error_code; err = some e }))
    gives :
        (r : R) (raw : RawMessage)
        → encode r ≡ encoded raw
        → Ends
            (returned (result r))
            (returned (record { result = raw; code = ok_code; err = none }))
    has_no_text :
        (r : R) (e : GoError)
        → encode r ≡ unencoded e
        → Ends (returned (result r)) (
            returned (record {
              result = none;
              code = internal_error_code;
              err = some (wrap (codes "marshal result: ") e);
            }))

  -- The outcome for the value that the params come to, or for their refusal.
  abbrev pub Becomes : C → P ⊎ GoError → Outcome Returned → Type 0
  Becomes ctx (inl p) o = Ends (fn ctx p) o
  Becomes ctx (inr e) o =
      o
      ≡ returned (record {
        result = none;
        code = invalid_params_error_code;
        err = some (wrap (codes "unmarshal params: ") e);
      })

  abbrev Explained : C → RawMessage → Outcome Returned → Type 0
  Explained ctx raw o = (t : P ⊎ GoError) × Takes raw t × Becomes ctx t o

  encode_result-Ends :
      (r : R) (x : Encoding)
      → encode r ≡ x
      → Ends (returned (result r)) (encode_result decode zero_params encode fn x)
  unfolding encode_result
  encode_result-Ends r (encoded raw) h = gives r raw h
  encode_result-Ends r (unencoded e) h = has_no_text r e h

  finish_call-Ends : (o : Outcome (Reply R)) → Ends o (finish_call decode zero_params encode fn o)
  unfolding finish_call
  finish_call-Ends (panicked text) = panics text
  finish_call-Ends (returned (refusal e)) = errs e
  finish_call-Ends (returned (result r)) = encode_result-Ends r (encode r) refl

  call_with-Ends :
      (ctx : C) (p : P) → Ends (fn ctx p) (call_with decode zero_params encode fn ctx p)
  unfolding call_with
  call_with-Ends ctx p = finish_call-Ends (fn ctx p)

  not_empty : (s : Bytes) → is_empty_json_array s ≡ false → ¬ IsEmptyList s
  not_empty s h k = cc (h, (is_empty_json_array-IsEmptyList s).1 k)

  decoded-Explained :
      (ctx : C) (b : ℕ) (s : Bytes) (d : Decoding P)
      → decode (b ∷ s) ≡ d
      → Explained ctx (some (b ∷ s)) (call_decoded decode zero_params encode fn ctx (b ∷ s) d)
  unfolding call_decoded
  decoded-Explained ctx b s (decoded p) h = (inl p, reads b s p h, call_with-Ends ctx p)
  decoded-Explained ctx b s (failed e) h = elim (Bool-cases (is_empty_json_array (b ∷ s))) [
    | inl k ↦ (
      inl zero_params,
      forgives b s e h ((is_empty_json_array-IsEmptyList (b ∷ s)).0 k),
      rw k (call_with-Ends ctx zero_params),
    )
    | inr k ↦ (inr e, refuses b s e h (not_empty (b ∷ s) k), rw k refl)
  ]

  -- Whatever the params are, the outcome is that of the function on the value that they come to, its
  -- panic, its error as an internal one or its result encoded, or the refusal of invalid params with
  -- the error of the decoder: absent params and params of no bytes come to the zero value without
  -- being decoded, params that can be decoded to what they decode to, an empty list that cannot be
  -- decoded to the zero value, and all others are refused.
  pub typed-Takes :
      (ctx : C) (raw : RawMessage)
      → (t : P ⊎ GoError) × Takes raw t × Becomes ctx t (typed decode zero_params encode fn ctx raw)
  unfolding typed
  typed-Takes ctx none = (inl zero_params, absent, call_with-Ends ctx zero_params)
  typed-Takes ctx (some []) = (inl zero_params, empty, call_with-Ends ctx zero_params)
  typed-Takes ctx (some (b ∷ s)) = decoded-Explained ctx b s (decode (b ∷ s)) refl
