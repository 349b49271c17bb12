-- ===== src/Tests/Typed.antt =====
-- A typed handler that takes numbers, and an empty list of params.
use golang_jsonrpc.Prelude.{ℕ, ◌≡◌, ◌↔◌, ◌⊎◌, refl, true, [], some, Bytes, codes}
use golang_jsonrpc.Rpc.Types.{GoError, message, returned, Outcome}
use golang_jsonrpc.Rpc.Typed.{
  Decoding, failed, Encoding, encoded, Reply, result, typed, see, see_all, is_empty_json_array,
}
use golang_jsonrpc.Rpc.Typed.EmptyList.{IsEmptyList, is_empty_json_array-IsEmptyList}
use golang_jsonrpc.Rpc.Typed.Outcomes.{Takes, Becomes, typed-Takes}

abbrev pub no_number : Bytes → Decoding ℕ
no_number s = failed (message (codes "no number"))

abbrev pub print_one : ℕ → Encoding
print_one n = encoded (some (codes "1"))

abbrev pub double : ℕ → ℕ → Outcome (Reply ℕ)
double ctx n = returned (result n)

abbrev spelled : Bytes
spelled = codes " [ ]"

spelled_text : is_empty_json_array spelled ≡ true
unfolding see_all see
spelled_text = refl

is_empty_json_array-IsEmptyList_example : (is_empty_json_array spelled ≡ true) ↔ IsEmptyList spelled
is_empty_json_array-IsEmptyList_example = is_empty_json_array-IsEmptyList spelled

typed-Takes_example :
    (t : ℕ ⊎ GoError) × Takes no_number 0 print_one double (some []) t
    × Becomes no_number 0 print_one double 0 t (typed no_number 0 print_one double 0 (some []))
typed-Takes_example = typed-Takes no_number 0 print_one double 0 (some [])
