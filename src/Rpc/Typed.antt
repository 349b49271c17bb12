-- ===== src/Rpc/Typed.antt =====
-- typed.go: handlers over types of the program. Decoding into the type of the params, with what it
-- leaves behind where it fails, and encoding the result are parameters.
pub mod EmptyList
pub mod Outcomes
use golang_jsonrpc.Prelude.{
  ℕ, ℤ, Bool, true, false, List, [], ◌∷◌, Option, none, some, Bytes, codes, if◌then◌else◌, ◌==◌,
  ◌||◌,
}
use golang_jsonrpc.Rpc.Types.{
  RawMessage, GoError, wrap, Outcome, returned, panicked, Returned, RpcMethod, ok_code,
  internal_error_code, invalid_params_error_code,
}

-- What `isEmptyJSONArray` has seen: nothing, `[`, or `[]`.
pub data Seen : Type 0 where
  nothing opened closed : Seen

abbrev pub is_json_space : ℕ → Bool
is_json_space b = b == b' ' || b == b'\t' || b == b'\n' || b == b'\r'

open_bracket : Seen → Option Seen
open_bracket nothing = some opened
open_bracket opened = none
open_bracket closed = none

close_bracket : Seen → Option Seen
close_bracket nothing = none
close_bracket opened = some closed
close_bracket closed = none

-- One byte; `none` is the return of false.
unfoldable pub see : ℕ → Seen → Option Seen
unfolding open_bracket close_bracket
see b seen =
    if is_json_space b
    then some seen
    else if b == b'['
    then open_bracket seen
    else if b == b']'
    then close_bracket seen
    else none

is_closed : Seen → Bool
is_closed nothing = false
is_closed opened = false
is_closed closed = true

unfoldable pub see_all : Option Seen → Bytes → Bool
unfolding is_closed
see_all none s = false
see_all (some seen) [] = is_closed seen
see_all (some seen) (b ∷ s) = see_all (see b seen) s

-- `isEmptyJSONArray`
abbrev pub is_empty_json_array : Bytes → Bool
is_empty_json_array s = see_all (some nothing) s

-- `codec.Unmarshal` into the params, and `codec.Marshal` of the result.
pub data Decoding (P : Type 0) : Type 0 where
  decoded : P → Decoding P
  failed : GoError → Decoding P

pub data Encoding : Type 0 where
  encoded : RawMessage → Encoding
  unencoded : GoError → Encoding

-- What a typed handler returns.
pub data Reply (R : Type 0) : Type 0 where
  result : R → Reply R
  refusal : GoError → Reply R

abbrev pub failure : ℤ → GoError → Outcome Returned
failure code e = returned (record { result = none; code = code; err = some e })

module _ {C P R : Type 0} (decode : Bytes → Decoding P) (zero_params : P) (encode : R → Encoding)
    (fn : C → P → Outcome (Reply R)) where
  unfoldable pub encode_result : Encoding → Outcome Returned
  encode_result (encoded raw) = returned (record { result = raw; code = ok_code; err = none })
  encode_result (unencoded e) = failure internal_error_code (wrap (codes "marshal result: ") e)

  unfoldable pub finish_call : Outcome (Reply R) → Outcome Returned
  unfolding encode_result
  finish_call (panicked text) = panicked text
  finish_call (returned (refusal e)) = failure internal_error_code e
  finish_call (returned (result r)) = encode_result (encode r)

  -- The call of the function. It is a function of its arguments here, so that how often it is
  -- called cannot be told.
  unfoldable pub call_with : C → P → Outcome Returned
  unfolding finish_call
  call_with ctx params = finish_call (fn ctx params)

  -- Params that are there: an empty list that cannot be decoded counts as no params.
  unfoldable pub call_decoded : C → Bytes → Decoding P → Outcome Returned
  unfolding call_with
  call_decoded ctx s (decoded params) = call_with ctx params
  call_decoded ctx s (failed e) =
      if is_empty_json_array s
      then call_with ctx zero_params
      else failure invalid_params_error_code (wrap (codes "unmarshal params: ") e)

  -- `Typed`
  unfoldable pub typed : RpcMethod C
  unfolding call_decoded
  typed ctx none = call_with ctx zero_params
  typed ctx (some []) = call_with ctx zero_params
  typed ctx (some (b ∷ s)) = call_decoded ctx (b ∷ s) (decode (b ∷ s))
