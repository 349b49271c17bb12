-- ===== src/Batch/Length.antt =====
-- handle.go: `approxBatchLen`.
pub mod Exact
use golang_jsonrpc.Prelude.{
  ℕ, zero, suc, ◌+◌, ◌-◌, ◌≡◌, refl, Bool, true, false, ◌&&◌, ◌||◌, not, [], ◌∷◌, arith, Bytes,
  ◌==◌, ltb, if◌then◌else◌, codes, ℤ, pos, negsuc, int_eq,
}

pub record Scan : Type 0 where
  pub depth : ℤ
  pub count : ℕ
  pub in_string : Bool
  pub escaped : Bool
  pub seen : Bool

-- `depth++` and `depth--`; malformed input can bring the depth below zero.
unfoldable pub increment : ℤ → ℤ
increment (pos n) = pos (suc n)
increment (negsuc zero) = pos 0
increment (negsuc (suc n)) = negsuc n

unfoldable pub decrement : ℤ → ℤ
decrement (pos zero) = negsuc 0
decrement (pos (suc n)) = pos n
decrement (negsuc n) = negsuc (suc n)

abbrev pub is_blank : ℕ → Bool
is_blank c = c == b' ' || c == b'\t' || c == b'\n' || c == b'\r'

abbrev pub is_open : ℕ → Bool
is_open c = c == b'[' || c == b'{'

abbrev pub is_close : ℕ → Bool
is_close c = c == b']' || c == b'}'

abbrev at_top : Scan → Bool
at_top st = int_eq st.depth (pos 1)

string_step : Scan → ℕ → Scan
string_step st b =
    if st.escaped
    then record st { escaped = false }
    else if b == b'\\'
    then record st { escaped = true }
    else if b == b'"'
    then record st { in_string = false }
    else st

-- One byte outside of a string, but for the early return at a comma.
byte_step : Scan → ℕ → Scan
byte_step st b =
    let seen' = st.seen || at_top st in
    if b == b'"'
    then record st { in_string = true; seen = seen' }
    else if is_open b
    then record st { depth = increment st.depth; seen = seen' }
    else if is_close b
    then record st { depth = decrement st.depth }
    else if b == b','
    then record st { count = if at_top st then st.count + 1 else st.count }
    else if is_blank b
    then st
    else record st { seen = seen' }

unfoldable pub step : Scan → ℕ → Scan
unfolding string_step byte_step increment decrement
step st b = if st.in_string then string_step st b else byte_step st b

-- The comma that brings the count past the limit ends the scan.
unfoldable pub is_over : ℕ → Scan → ℕ → Bool
is_over limit st b = not st.in_string && b == b',' && at_top st && ltb limit (st.count + 2)

unfoldable pub scan : ℕ → Scan → Bytes → ℕ
unfolding step is_over
scan limit st [] = if st.seen then st.count + 1 else st.count
scan limit st (b ∷ bs) = if is_over limit st b then st.count + 2 else scan limit (step st b) bs

abbrev pub start : Scan
start = record { depth = pos 0; count = 0; in_string = false; escaped = false; seen = false }

unfoldable pub approx_batch_len : Bytes → ℕ → ℕ
unfolding scan
approx_batch_len data' limit = scan limit start data'

counts :
    (approx_batch_len (codes "[1, [2,3], \"a,b\\\",\", {\"k\": [4,5]}]") 10 ≡ 4)
    × (approx_batch_len (codes "[ ]") 10 ≡ 0)
    × (approx_batch_len (codes "[1,2,3,4,5]") 2 ≡ 3)
unfolding approx_batch_len
counts = (refl, refl, refl)
