-- ===== src/Text/Decimal.antt =====
-- `strconv.AppendInt` on lengths and counters, and `strconv.ParseInt` with base 10 and 64 bits.
use mathlib.Core.List.{concat-ne-nil}
use golang_jsonrpc.Prelude.{
  ℕ, zero, suc, ◌+◌, ◌-◌, ◌*◌, ◌/◌, ◌%◌, ◌^◌, ◌<◌, ◌≤◌, ◌≡◌, refl, ap, ◌∙◌, Bool, true, false, ◌&&◌,
  [], ◌∷◌, ◌++◌, Option, none, some, arith, Bytes, leb, ltb, ◌==◌, if◌then◌else◌, ℤ, pos, negsuc,
  All, All-append, ◌≢◌, length, length-append, lt→ltb, Bool-cases, inl, inr,
}

abbrev pub is_digit : ℕ → Bool
is_digit c = leb b'0' c && leb c b'9'

-- The decimal digits, most significant first; `n + 1` rounds are enough for `n`.
pub digits : ℕ → ℕ → Bytes
digits zero n = []
digits (suc f) n =
    let rest = digits f (n / 10) ++ (b'0' + n % 10) ∷ [] in
    if ltb n 10 then (b'0' + n) ∷ [] else rest

unfoldable pub print : ℕ → Bytes
unfolding digits
print n = digits (suc n) n

-- The digits of `ParseUint`; a value past 64 bits is a range error.
pub scan_digits : Bytes → ℕ → Option ℕ
scan_digits [] n = some n
scan_digits (c ∷ s) n =
    let m = n * 10 + (c - b'0') in if is_digit c && ltb m (2 ^ 64) then scan_digits s m else none

unfoldable pub parse_uint : Bytes → Option ℕ
unfolding scan_digits
parse_uint [] = none
parse_uint (c ∷ s) = scan_digits (c ∷ s) 0

-- The magnitude with its sign, if it lies in the range of `int64`.
signed : Bool → Option ℕ → Option ℤ
signed negative none = none
signed false (some n) = if ltb n (2 ^ 63) then some (pos n) else none
signed true (some zero) = some (pos 0)
signed true (some (suc n)) = if ltb n (2 ^ 63) then some (negsuc n) else none

unfoldable pub parse_int : Bytes → Option ℤ
unfolding signed parse_uint
parse_int [] = none
parse_int (c ∷ s) =
    if c == b'+'
    then signed false (parse_uint s)
    else if c == b'-'
    then signed true (parse_uint s)
    else signed false (parse_uint (c ∷ s))

abbrev pub IsDigit : ℕ → Type 0
IsDigit c = (b'0' ≤ c) × (c ≤ b'9')

scan_digits-concat :
    (s : Bytes) (d n m : ℕ)
    → IsDigit d
    → scan_digits s n ≡ some m
    → m * 10 + (d - b'0') < 2 ^ 64
    → scan_digits (s ++ d ∷ []) n ≡ some (m * 10 + (d - b'0'))
unfolding scan_digits
scan_digits-concat [] d n m h e b = ground arith
scan_digits-concat (c ∷ s) d n m h e b =
    ground (arith, scan_digits-concat s d (n * 10 + (c - b'0')) m)

-- The digits of `n` without the last are those of `n / 10`, and reading the last one back gives `n`.
scan_digits-digits : (f n : ℕ) → n < f → n < 2 ^ 64 → scan_digits (digits f n) 0 ≡ some n
unfolding digits
scan_digits-digits zero n h b = elim h [ ]
scan_digits-digits (suc f) n h b = elim (Bool-cases (ltb n 10)) [
  | inl small ↦ rw small (unfold scan_digits in ground arith)
  | inr large ↦ rw large (
      scan_digits-concat (digits f (n / 10)) (b'0' + n % 10) 0 (n / 10) (omega arith)
        (scan_digits-digits f (n / 10) (ground arith) (omega arith)) (omega arith)
      ∙ ap some (omega arith))
]

All-digits : (f n : ℕ) → All IsDigit (digits f n)
unfolding digits
All-digits zero n = tt
All-digits (suc f) n = elim (Bool-cases (ltb n 10)) [
  | inl small ↦ rw small ((omega arith, ground arith), tt)
  | inr large ↦ rw large (
      All-append IsDigit (digits f (n / 10)) _ (All-digits f (n / 10))
        ((omega arith, omega arith), tt))
]

digits-ne-nil : (f n : ℕ) → digits (suc f) n ≢ []
unfolding digits
digits-ne-nil f n = elim (Bool-cases (ltb n 10)) [
  | inl small ↦ rw small (λ e. cc)
  | inr large ↦ rw large (concat-ne-nil _ (digits f (n / 10)))
]

pub All-print : (n : ℕ) → All IsDigit (print n)
unfolding print
All-print n = All-digits (suc n) n

pub print-ne-nil : (n : ℕ) → print n ≢ []
unfolding print
print-ne-nil n = digits-ne-nil n n

parse_int-scan :
    (s : Bytes) (n : ℕ)
    → All IsDigit s
    → s ≢ []
    → scan_digits s 0 ≡ some n
    → n < 2 ^ 63
    → parse_int s ≡ some (pos n)
unfolding parse_int
parse_int-scan [] n a h e b = absurd (h refl)
parse_int-scan (c ∷ s) n a h e b = ground arith

-- A number within the range of `int64` is read back from its print.
pub parse_int-print : (n : ℕ) → n < 2 ^ 63 → parse_int (print n) ≡ some (pos n)
parse_int-print n h =
    parse_int-scan (print n) n (All-print n) (print-ne-nil n)
      (unfold print in scan_digits-digits (suc n) n (omega arith) (omega arith)) h

abbrev pub pow10 : ℕ → ℕ
pow10 zero = 1
pow10 (suc k) = 10 * pow10 k

length-digits : (k f n : ℕ) → n < pow10 (suc k) → length (digits f n) ≤ suc k
unfolding digits
length-digits k zero n h = omega arith
length-digits zero (suc f) n h = rw (lt→ltb n 10 (omega arith)) (omega arith)
length-digits (suc k) (suc f) n h = elim (Bool-cases (ltb n 10)) [
  | inl small ↦ rw small (omega arith)
  | inr large ↦
      rw (large, length-append (digits f (n / 10)) _)
        (omega (arith, length-digits k f (n / 10) (omega arith)))
]

-- A number of `int64` has 19 digits at most.
pub length-print : (n : ℕ) → n < 2 ^ 63 → length (print n) ≤ 19
unfolding print
length-print n h = length-digits 18 (suc n) n (omega arith)
