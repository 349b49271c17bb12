-- ===== src/Batch/Notifications.antt =====
-- handle.go: `lacksResponseID`. The bytes since `keyStart` are kept in place of the index.
pub mod Members
pub mod Objects
pub mod Elements
pub mod Replies
use golang_jsonrpc.Prelude.{
  ℕ, zero, suc, ◌+◌, ◌-◌, ◌≡◌, refl, Bool, true, false, ◌&&◌, ◌||◌, not, [], ◌∷◌, ◌++◌, Option,
  none, some, arith, Bytes, ◌==◌, ltb, if◌then◌else◌, codes, bytes_eq, length,
}
use golang_jsonrpc.Text.Space.{trim_space}
use golang_jsonrpc.Batch.Length.{is_blank}

pub record Scan : Type 0 where
  pub depth : ℕ
  pub in_string : Bool
  pub escaped : Bool
  -- a string at the depth of the keys is a key, not a value
  pub key_pos : Bool
  pub in_key : Bool
  pub key_escaped : Bool
  pub key : Bytes
  pub saw_element : Bool
  pub closed : Bool

-- The end of a string: a key that is `id`, or could be once decoded, keeps the reply.
end_string : Scan → Option Scan
end_string st =
    if st.in_key
    then (if st.key_escaped || bytes_eq st.key (codes "id")
        then none
        else some (record st { in_string = false; in_key = false }))
    else some (record st { in_string = false })

string_step : Scan → ℕ → Option Scan
unfolding end_string
string_step st b =
    let st' = record st { key = st.key ++ b ∷ [] } in
    if st.escaped
    then some (record st' { escaped = false })
    else if b == b'\\'
    then some (record st' { escaped = true; key_escaped = true })
    else if b == b'"'
    then end_string st
    else some st'

begin_string : ℕ → Scan → Scan
begin_string key_depth st =
    if st.depth == key_depth && st.key_pos
    then record st { in_string = true; in_key = true; key = []; key_escaped = false }
    else record st { in_string = true }

open_object : ℕ → Scan → Scan
open_object key_depth st =
    if st.depth + 1 == key_depth
    then record st { depth = st.depth + 1; key_pos = true; saw_element = true }
    else record st { depth = st.depth + 1 }

byte_step : ℕ → Scan → ℕ → Option Scan
unfolding begin_string open_object
byte_step key_depth st b =
    if b == b'"'
    then some (begin_string key_depth st)
    else if b == b'{'
    then some (open_object key_depth st)
    else if b == b'['
    then (if key_depth == 2 && st.depth == 1
        then none
        else some (record st { depth = st.depth + 1 }))
    else if b == b'}' || b == b']'
    then (if st.depth == 0
        then none
        else some (record st { depth = st.depth - 1; closed = st.closed || st.depth == 1 }))
    else if b == b':'
    then some (if st.depth == key_depth then record st { key_pos = false } else st)
    else if b == b','
    then some (if st.depth == key_depth then record st { key_pos = true } else st)
    else if is_blank b
    then some st
    else if key_depth == 2 && st.depth == 1
    then none
    else some st

unfoldable pub step : ℕ → Scan → ℕ → Option Scan
unfolding string_step byte_step
step key_depth st b =
    if st.in_string then string_step st b else if st.closed then none else byte_step key_depth st b

unfoldable pub finish : ℕ → Scan → Bool
finish key_depth st = st.closed && not st.in_string && (key_depth == 1 || st.saw_element)

-- `none` of a step is the early `return false`.
unfoldable pub scan : ℕ → Scan → Bytes → Bool
unfolding step finish
scan key_depth st [] = finish key_depth st
scan key_depth st (b ∷ bs) = elim (step key_depth st b) [
  | none ↦ false
  | some st' ↦ scan key_depth st' bs
]

abbrev pub start : Scan
start = record {
  depth = 0;
  in_string = false;
  escaped = false;
  key_pos = false;
  in_key = false;
  key_escaped = false;
  key = [];
  saw_element = false;
  closed = false;
}

unfoldable pub lacks_trimmed : Bytes → Bool
unfolding scan
lacks_trimmed [] = false
lacks_trimmed (a ∷ s) =
    if ltb (length (a ∷ s)) 2
    then false
    else if a == b'{'
    then scan 1 start (a ∷ s)
    else if a == b'['
    then scan 2 start (a ∷ s)
    else false

unfoldable pub lacks_response_id : Bytes → Bool
unfolding lacks_trimmed
lacks_response_id data' = lacks_trimmed (trim_space data')

answers :
    (lacks_response_id (codes " {\"method\":\"id\", \"params\":{\"id\":1}} ") ≡ true)
    × (lacks_response_id (codes "{\"method\":\"m\",\"id\":1}") ≡ false)
    × (lacks_response_id (codes "{\"m\\u0065thod\":1}") ≡ false)
    × (lacks_response_id (codes "[{\"a\":1},{\"b\":[2]}]") ≡ true)
    × (lacks_response_id (codes "[{\"a\":1},{\"id\":2}]") ≡ false)
    × (lacks_response_id (codes "[]") ≡ false)
    × (lacks_response_id (codes "[1]") ≡ false)
    × (lacks_response_id (codes "{}x") ≡ false)
unfolding lacks_response_id trim_space
answers = (refl, refl, refl, refl, refl, refl, refl, refl)
