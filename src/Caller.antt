-- ===== src/Caller.antt =====
-- batch.go and client.go: what the callers of both transports share. Encoding a value of the
-- program is part of the value, and decoding into a type of the program is a parameter.
pub mod Expected
pub mod Requests
use golang_jsonrpc.Prelude.{
  ℕ, suc, Bool, List, [], ◌∷◌, ◌++◌, Option, none, some, Bytes, if◌then◌else◌,
}
use golang_jsonrpc.Rpc.Types.{
  Any, encodes, unencodable, RequestId, RawMessage, is_empty, Request, ErrorObject, Response,
  version_2_0,
}
use golang_jsonrpc.Rpc.Wire.{Codec, marshal_request, ◌>>=◌}

-- The params of a call: nil, a raw message, or any other value.
pub data Params : Type 0 where
  no_value : Params
  raw_value : RawMessage → Params
  value : Any → Params

-- `MarshalParams`; `none` is its error.
unfoldable pub marshal_params : Params → Option RawMessage
marshal_params no_value = some none
marshal_params (raw_value raw) = some raw
marshal_params (value (encodes s)) = some (some s)
marshal_params (value unencodable) = none

pub record Spec : Type 0 where
  pub method : Bytes
  pub params : Params
  pub is_notification : Bool

pub record BatchResult : Type 0 where
  pub result : RawMessage
  pub error : Option ErrorObject

abbrev pub zero_result : BatchResult
zero_result = record { result = none; error = none }

abbrev pub failed_result : ErrorObject → BatchResult
failed_result e = record { result = none; error = some e }

-- `BatchResultFromResponse`
unfoldable pub batch_result_from_response : Response → BatchResult
batch_result_from_response r = elim r.error [
  | some e ↦ failed_result e
  | none ↦ elim r.result [ some raw ↦ record { result = raw; error = none } | none ↦ zero_result ]
]

-- A result in a type of the program.
pub data Decoded (R : Type 0) : Type 0 where
  decoded : R → Decoded R
  rpc_failed : ErrorObject → Decoded R
  undecodable : Decoded R

decoded_or : {R : Type 0} → Option R → Decoded R
decoded_or none = undecodable
decoded_or (some r) = decoded r

-- An absent result is the zero value.
decode_raw : {R : Type 0} → (Bytes → Option R) → R → RawMessage → Decoded R
unfolding decoded_or
decode_raw decode zero none = decoded zero
decode_raw decode zero (some []) = decoded zero
decode_raw decode zero (some (b ∷ s)) = decoded_or (decode (b ∷ s))

-- `BatchResultAs`
unfoldable pub batch_result_as : {R : Type 0} → (Bytes → Option R) → R → BatchResult → Decoded R
unfolding decode_raw
batch_result_as decode zero br = elim br.error [
  | some e ↦ rpc_failed e
  | none ↦ decode_raw decode zero br.result
]

-- The id of an entry: the next one that is drawn, or none for a notification. `draw` gives the ids
-- that the calls of `nextID` return, in turn; other calls may draw between them.
unfoldable pub id_of : (ℕ → Bytes) → ℕ → Spec → RequestId
id_of draw j s = if s.is_notification then none else some (draw j)

unfoldable pub drawn : ℕ → Spec → ℕ
drawn j s = if s.is_notification then j else suc j

-- The requests of `MarshalBatch`, with the id of each; `none` is an error in some params.
unfoldable pub batch_requests : (ℕ → Bytes) → ℕ → List Spec → Option (List Request)
batch_requests draw j [] = some []
batch_requests draw j (s ∷ specs) = do
  raw ← marshal_params s.params
  rest ← batch_requests draw (drawn j s) specs
  some (
      record { version = version_2_0; method = s.method; params = raw; id = id_of draw j s } ∷ rest)

abbrev pub ids_of : List Request → List RequestId
ids_of [] = []
ids_of (r ∷ rs) = r.id ∷ ids_of rs

-- `Requests.MarshalJSON` of a slice that is not nil.
marshal_more : Codec → List Request → Bytes
marshal_more k [] = []
marshal_more k (r ∷ rs) = b',' ∷ (marshal_request k r ++ marshal_more k rs)

unfoldable pub marshal_requests : Codec → List Request → Bytes
unfolding marshal_more
marshal_requests k [] = b'[' ∷ b']' ∷ []
marshal_requests k (r ∷ rs) = b'[' ∷ (marshal_request k r ++ (marshal_more k rs ++ b']' ∷ []))
