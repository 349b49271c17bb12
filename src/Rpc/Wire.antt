-- ===== src/Rpc/Wire.antt =====
-- structs/id.go, structs/request_codec.go, structs/error_codec.go, structs/structs_easyjson.go: the
-- encoders. The package easyjson, which writes strings and numbers and reads JSON, is the record
-- `Codec`; `none` is the error of a writer.
use golang_jsonrpc.Prelude.{
  ◌≢◌, refl, List, [], ◌∷◌, ◌++◌, Option, none, some, Bytes, codes, All, ℤ,
}
use golang_jsonrpc.Rpc.Types.{
  Any, encodes, unencodable, RequestId, RawMessage, Request, ErrorObject, Response,
}

pub record Codec : Type 0 where
  -- `jwriter.Writer.String` and `Int`
  pub string_text : Bytes → Bytes
  pub int_text : ℤ → Bytes
  -- `Request.UnmarshalJSON`, over `jlexer`
  pub decode_request : Bytes → Option Request

infixl 5 ◌>>=◌
abbrev pub ◌>>=◌ : {A B : Type 0} → Option A → (A → Option B) → Option B
none >>= f = none
some a >>= f = f a

-- `jwriter.Writer.Raw`: no bytes are written as null.
abbrev raw_text : Bytes → Bytes
raw_text [] = codes "null"
raw_text (c ∷ s) = c ∷ s

-- `ID.MarshalEasyJSON`, and `RawMessage.MarshalJSON` behind `Raw`.
unfoldable pub optional_text : Option Bytes → Bytes
optional_text none = codes "null"
optional_text (some s) = raw_text s

-- The member `data` of an error, if it is not nil.
marshal_payload : Option Any → Option Bytes
marshal_payload none = some []
marshal_payload (some (encodes s)) = some (codes ",\"data\":" ++ raw_text s)
marshal_payload (some unencodable) = none

module _ (k : Codec) where
  unfoldable pub marshal_error : ErrorObject → Option Bytes
  unfolding marshal_payload
  marshal_error e = do
    payload ← marshal_payload e.payload
    some (
        codes "{\"code\":"
        ++ (k.int_text e.code
            ++ (codes ",\"message\":" ++ (k.string_text e.message ++ (payload ++ codes "}")))))

  marshal_error_member : Option ErrorObject → Option Bytes
  unfolding marshal_error
  marshal_error_member none = some []
  marshal_error_member (some e) = do text ← marshal_error e; some (codes ",\"error\":" ++ text)

  marshal_result_member : Option RawMessage → Bytes
  unfolding optional_text
  marshal_result_member none = []
  marshal_result_member (some raw) = codes ",\"result\":" ++ optional_text raw

  unfoldable pub marshal_response : Response → Option Bytes
  unfolding marshal_error_member marshal_result_member optional_text
  marshal_response r = do
    error_text ← marshal_error_member r.error
    some (
        codes "{\"jsonrpc\":"
        ++ (k.string_text r.version
            ++ (marshal_result_member r.result
                ++ (error_text ++ (codes ",\"id\":" ++ (optional_text r.id ++ codes "}"))))))

  -- The entries of a batch behind the first, each with its comma.
  marshal_rest : List Response → Option Bytes
  marshal_rest [] = some []
  marshal_rest (r ∷ rs) = do
    text ← marshal_response r
    rest ← marshal_rest rs
    some (b',' ∷ (text ++ rest))

  unfoldable pub marshal_batch : List Response → Option Bytes
  unfolding marshal_rest
  marshal_batch [] = some (codes "[]")
  marshal_batch (r ∷ rs) = do
    text ← marshal_response r
    rest ← marshal_rest rs
    some (b'[' ∷ (text ++ (rest ++ codes "]")))

  -- A request: the params are left out if empty, the id if nil.
  params_member : RawMessage → Bytes
  params_member none = []
  params_member (some []) = []
  params_member (some (c ∷ s)) = codes ",\"params\":" ++ (c ∷ s)

  id_member : RequestId → Bytes
  id_member none = []
  id_member (some s) = codes ",\"id\":" ++ raw_text s

  unfoldable pub marshal_request : Request → Bytes
  unfolding params_member id_member
  marshal_request r =
      codes "{\"jsonrpc\":"
      ++ (k.string_text r.version
          ++ (codes ",\"method\":"
              ++ (k.string_text r.method
                  ++ (params_member r.params ++ (id_member r.id ++ codes "}")))))

  -- A response whose members can all be written.
  abbrev pub IsWritable : Response → Type 0
  IsWritable r = marshal_response r ≢ none

  append_some :
      (o p : Option Bytes) (f : Bytes → Bytes → Bytes)
      → o ≢ none
      → p ≢ none
      → (o >>= λ a. p >>= λ b. some (f a b)) ≢ none
  append_some none p f h h' e = h refl
  append_some (some a) none f h h' e = h' refl
  append_some (some a) (some b) f h h' e = cc

  marshal_rest-IsWritable : (rs : List Response) → All IsWritable rs → marshal_rest rs ≢ none
  unfolding marshal_rest
  marshal_rest-IsWritable [] h = λ e. cc
  marshal_rest-IsWritable (r ∷ rs) (h, hs) =
      append_some (marshal_response r) (marshal_rest rs) (λ text rest. b',' ∷ (text ++ rest)) h
        (marshal_rest-IsWritable rs hs)

  pub marshal_batch-IsWritable : (rs : List Response) → All IsWritable rs → marshal_batch rs ≢ none
  unfolding marshal_batch
  marshal_batch-IsWritable [] h = λ e. cc
  marshal_batch-IsWritable (r ∷ rs) (h, hs) =
      append_some (marshal_response r) (marshal_rest rs)
        (λ text rest. b'[' ∷ (text ++ (rest ++ codes "]"))) h (marshal_rest-IsWritable rs hs)

  both_some :
      (o p : Option Bytes) (f : Bytes → Bytes → Bytes)
      → (o >>= λ a. p >>= λ b. some (f a b)) ≢ none
      → (o ≢ none) × (p ≢ none)
  both_some none p f h = absurd (h refl)
  both_some (some a) none f h = absurd (h refl)
  both_some (some a) (some b) f h = ((λ e. cc), (λ e. cc))

  IsWritable-marshal_rest : (rs : List Response) → marshal_rest rs ≢ none → All IsWritable rs
  unfolding marshal_rest
  IsWritable-marshal_rest [] h = tt
  IsWritable-marshal_rest (r ∷ rs) h =
      let both =
        both_some (marshal_response r) (marshal_rest rs) (λ text rest. b',' ∷ (text ++ rest)) h in
      (both.0, IsWritable-marshal_rest rs both.1)

  pub IsWritable-marshal_batch : (rs : List Response) → marshal_batch rs ≢ none → All IsWritable rs
  unfolding marshal_batch
  IsWritable-marshal_batch [] h = tt
  IsWritable-marshal_batch (r ∷ rs) h =
      let both =
        both_some (marshal_response r) (marshal_rest rs)
          (λ text rest. b'[' ∷ (text ++ (rest ++ codes "]"))) h in
      (both.0, IsWritable-marshal_rest rs both.1)
