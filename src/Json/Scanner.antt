-- ===== src/Json/Scanner.antt =====
-- The scanner of Go's `encoding/json`, which decides `json.Valid` and drives `json.Compact`: one
-- step per byte, with the stack of the arrays and objects that are open.
use golang_jsonrpc.Prelude.{
  ℕ, zero, suc, ◌≡◌, refl, Bool, true, false, ◌&&◌, ◌||◌, List, [], ◌∷◌, Option, none, some, Bytes,
  codes, leb, ltb, ◌==◌, if◌then◌else◌, length,
}

-- What an open bracket waits for.
pub data Open : Type 0 where
  object_key object_value array_value : Open

pub data Mode : Type 0 where
  begin_value begin_value_or_empty begin_string begin_string_or_empty : Mode
  end_value end_top : Mode
  in_string in_string_esc : Mode
  -- hexadecimal digits still to come
  in_string_hex : ℕ → Mode
  neg number_0 number_1 dot dot_0 exponent exponent_sign exponent_0 : Mode
  -- the rest of `true`, `false` or `null`
  literal : Bytes → Mode

pub record State : Type 0 where
  pub mode : Mode
  pub open_brackets : List Open

abbrev pub is_blank : ℕ → Bool
is_blank c = c == b' ' || c == b'\t' || c == b'\r' || c == b'\n'

abbrev is_digit : ℕ → Bool
is_digit c = leb b'0' c && leb c b'9'

abbrev is_hex : ℕ → Bool
is_hex c = is_digit c || (leb b'a' c && leb c b'f') || (leb b'A' c && leb c b'F')

abbrev at : Mode → List Open → Option State
at m s = some (record { mode = m; open_brackets = s })

abbrev max_nesting_depth : ℕ
max_nesting_depth = 10000

push : Open → Mode → List Open → Option State
push o m s = if ltb max_nesting_depth (length (o ∷ s)) then none else at m (o ∷ s)

-- A bracket is closed: the value around it goes on, or the text is complete.
pop : List Open → Option State
pop [] = at end_top []
pop (o ∷ []) = at end_top []
pop (o ∷ p ∷ s) = at end_value (p ∷ s)

step_begin : ℕ → List Open → Option State
step_begin c s =
    if c == b'{'
    then push object_key begin_string_or_empty s
    else if c == b'['
    then push array_value begin_value_or_empty s
    else if c == b'"'
    then at in_string s
    else if c == b'-'
    then at neg s
    else if c == b'0'
    then at number_0 s
    else if is_digit c
    then at number_1 s
    else if c == b't'
    then at (literal (codes "rue")) s
    else if c == b'f'
    then at (literal (codes "alse")) s
    else if c == b'n'
    then at (literal (codes "ull")) s
    else none

step_begin_string : ℕ → List Open → Option State
step_begin_string c s = if c == b'"' then at in_string s else none

-- The byte after a value.
step_end : ℕ → List Open → Option State
step_end c [] = if is_blank c then at end_top [] else none
step_end c (object_key ∷ s) =
    if is_blank c
    then at end_value (object_key ∷ s)
    else if c == b':'
    then at begin_value (object_value ∷ s)
    else none
step_end c (object_value ∷ s) =
    if is_blank c
    then at end_value (object_value ∷ s)
    else if c == b','
    then at begin_string (object_key ∷ s)
    else if c == b'}'
    then pop (object_value ∷ s)
    else none
step_end c (array_value ∷ s) =
    if is_blank c
    then at end_value (array_value ∷ s)
    else if c == b','
    then at begin_value (array_value ∷ s)
    else if c == b']'
    then pop (array_value ∷ s)
    else none

step_number : Bool → Bool → ℕ → Mode → List Open → Option State
unfolding step_end
step_number point exp c again s =
    if is_digit c
    then at again s
    else if point && c == b'.'
    then at dot s
    else if exp && (c == b'e' || c == b'E')
    then at exponent s
    else step_end c s

-- `{}`: the key that was waited for does not come.
step_begin_string_or_empty : ℕ → List Open → Option State
unfolding step_begin_string pop
step_begin_string_or_empty c s = if c == b'}' then pop s else step_begin_string c s

unfoldable pub step : Mode → ℕ → List Open → Option State
unfolding push pop step_begin step_begin_string step_end step_number step_begin_string_or_empty
step begin_value c s = if is_blank c then at begin_value s else step_begin c s
step begin_value_or_empty c s =
    if is_blank c
    then at begin_value_or_empty s
    else if c == b']'
    then step_end c s
    else step_begin c s
step begin_string c s = if is_blank c then at begin_string s else step_begin_string c s
step begin_string_or_empty c s =
    if is_blank c then at begin_string_or_empty s else step_begin_string_or_empty c s
step end_value c s = step_end c s
step end_top c s = if is_blank c then at end_top s else none
step in_string c s =
    if c == b'"'
    then at end_value s
    else if c == b'\\'
    then at in_string_esc s
    else if ltb c 32
    then none
    else at in_string s
step in_string_esc c s =
    if c == b'u'
    then at (in_string_hex 3) s
    else if c == b'b'
        || c == b'f'
        || c == b'n'
        || c == b'r'
        || c == b't'
        || c == b'\\'
        || c == b'/'
        || c == b'"'
    then at in_string s
    else none
step (in_string_hex zero) c s = if is_hex c then at in_string s else none
step (in_string_hex (suc n)) c s = if is_hex c then at (in_string_hex n) s else none
step neg c s = if c == b'0' then at number_0 s else if is_digit c then at number_1 s else none
step number_0 c s =
    if c == b'.' then at dot s else if c == b'e' || c == b'E' then at exponent s else step_end c s
step number_1 c s = step_number true true c number_1 s
step dot c s = if is_digit c then at dot_0 s else none
step dot_0 c s = step_number false true c dot_0 s
step exponent c s =
    if c == b'+' || c == b'-'
    then at exponent_sign s
    else if is_digit c
    then at exponent_0 s
    else none
step exponent_sign c s = if is_digit c then at exponent_0 s else none
step exponent_0 c s = step_number false false c exponent_0 s
step (literal []) c s = step_end c s
step (literal (d ∷ [])) c s = if c == d then at end_value s else none
step (literal (d ∷ e ∷ ds)) c s = if c == d then at (literal (e ∷ ds)) s else none

abbrev pub start : State
start = record { mode = begin_value; open_brackets = [] }

-- `scanner.eof`: a blank after the last byte ends a number; then the text must be complete.
unfoldable pub at_eof : Mode → List Open → Bool
unfolding step
at_eof end_top s = true
at_eof m s = elim (step m 32 s) [
  | none ↦ false
  | some st ↦ elim st.mode [ end_top ↦ true | _ ↦ false ]
]

unfoldable pub run : State → Bytes → Option State
unfolding step
run st [] = some st
run st (c ∷ cs) = elim (step st.mode c st.open_brackets) [ none ↦ none | some st' ↦ run st' cs ]

unfoldable pub valid : Bytes → Bool
unfolding run at_eof
valid s = elim (run start s) [ none ↦ false | some st ↦ at_eof st.mode st.open_brackets ]

valid_texts :
    (valid (codes "{\"a\": [1, -2.5e+3, true], \"b\": {}}") ≡ true)
    × (valid (codes " [] ") ≡ true)
    × (valid (codes "12") ≡ true)
    × (valid (codes "\"\\u00e9\"") ≡ true)
    × (valid (codes "{\"a\":1,}") ≡ false)
    × (valid (codes "[1,]") ≡ false)
    × (valid (codes "01") ≡ false)
    × (valid (codes "1e") ≡ false)
    × (valid (codes "null null") ≡ false)
    × (valid (codes "") ≡ false)
unfolding valid
valid_texts = (refl, refl, refl, refl, refl, refl, refl, refl, refl, refl)
