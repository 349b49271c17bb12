-- ===== src/Batch/Split.antt =====
-- handle.go: `splitBatchElements`. The bytes since `start` are kept in place of the index.
pub mod RoundTrip
use golang_jsonrpc.Prelude.{
  ℕ, zero, suc, ◌+◌, ◌-◌, ◌≡◌, refl, Bool, true, false, ◌&&◌, ◌||◌, not, List, [], ◌∷◌, ◌++◌,
  Option, none, some, arith, Bytes, ◌==◌, ltb, if◌then◌else◌, codes, init, drop, is_nil,
}
use golang_jsonrpc.Batch.Length.{is_blank, is_open, is_close}

pub record Scan : Type 0 where
  pub elems : List Bytes
  pub depth : ℕ
  pub in_string : Bool
  pub escaped : Bool
  -- the element since its first byte; `none` is the index -1
  pub current : Option Bytes

-- A byte inside of an element that has begun.
abbrev pub extend : Option Bytes → ℕ → Option Bytes
extend none b = none
extend (some e) b = some (e ++ b ∷ [])

-- A byte that begins an element, if none has begun.
abbrev pub begin_or_extend : Option Bytes → ℕ → Option Bytes
begin_or_extend none b = some (b ∷ [])
begin_or_extend (some e) b = some (e ++ b ∷ [])

string_step : Scan → ℕ → Scan
string_step st b =
    let st' = record st { current = extend st.current b } in
    if st.escaped
    then record st' { escaped = false }
    else if b == b'\\'
    then record st' { escaped = true }
    else if b == b'"'
    then record st' { in_string = false }
    else st'

-- A comma between elements; an element that has not begun is an empty one.
unfoldable pub comma_step : Scan → Option Bytes → Option Scan
comma_step st none = none
comma_step st (some e) = some (record st { elems = st.elems ++ e ∷ []; current = none })

byte_step : Scan → ℕ → Option Scan
unfolding comma_step
byte_step st b =
    if b == b'"'
    then some (record st { in_string = true; current = begin_or_extend st.current b })
    else if is_open b
    then some (record st { depth = st.depth + 1; current = begin_or_extend st.current b })
    else if is_close b
    then (if st.depth == 0
        then none
        else some (record st { depth = st.depth - 1; current = extend st.current b }))
    else if b == b','
    then (if st.depth == 0
        then comma_step st st.current
        else some (record st { current = extend st.current b }))
    else if is_blank b
    then some (record st { current = extend st.current b })
    else some (record st { current = begin_or_extend st.current b })

unfoldable pub step : Scan → ℕ → Option Scan
unfolding string_step byte_step
step st b = if st.in_string then some (string_step st b) else byte_step st b

-- Behind the loop: the last element, or a trailing comma.
unfoldable pub last_element : List Bytes → Option Bytes → Option (List Bytes)
last_element elems (some e) = some (elems ++ e ∷ [])
last_element elems none = if is_nil elems then some [] else none

unfoldable pub finish : Scan → Option (List Bytes)
unfolding last_element
finish st = if st.in_string || not (st.depth == 0) then none else last_element st.elems st.current

unfoldable pub scan : Scan → Bytes → Option (List Bytes)
unfolding finish step
scan st [] = finish st
scan st (b ∷ bs) = elim (step st b) [ none ↦ none | some st' ↦ scan st' bs ]

abbrev pub start : Scan
start = record { elems = []; depth = 0; in_string = false; escaped = false; current = none }

-- The caller has seen the brackets at both ends.
unfoldable pub split_batch_elements : Bytes → Option (List Bytes)
unfolding scan
split_batch_elements data' = scan start (init (drop 1 data'))

splits :
    (split_batch_elements (codes "[1 , [2,3],\"a,b\"]")
      ≡ some (codes "1 " ∷ codes "[2,3]" ∷ codes "\"a,b\"" ∷ []))
    × (split_batch_elements (codes "[ ]") ≡ some [])
    × (split_batch_elements (codes "[1,,2]") ≡ none)
    × (split_batch_elements (codes "[1,]") ≡ none)
    × (split_batch_elements (codes "[[1]") ≡ none)
    × (split_batch_elements (codes "[\"a]") ≡ none)
unfolding split_batch_elements
splits = (refl, refl, refl, refl, refl, refl)
