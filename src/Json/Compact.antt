-- ===== src/Json/Compact.antt =====
-- `json.Compact` of Go's standard library.
use mathlib.Core.Option
use golang_jsonrpc.Prelude.{
  ℕ, ◌≡◌, ◌≢◌, refl, Bool, true, false, [], ◌∷◌, Option, none, some, arith, Bytes, if◌then◌else◌,
  All, inl, inr, Option-cases, subst, Bool-cases, codes,
}
use golang_jsonrpc.Json.Scanner.{Mode, State, in_string, is_blank, step, start, at_eof}

-- White space counts as text inside of a string only.
dropped : Mode → ℕ → Bool
dropped in_string c = false
dropped m c = is_blank c

compact_from : State → Bytes → Option Bytes
unfolding dropped
compact_from st [] = if at_eof st.mode st.open_brackets then some [] else none
compact_from st (c ∷ cs) = elim (step st.mode c st.open_brackets) [
  | none ↦ none
  | some st' ↦ Option.map (λ r. if dropped st.mode c then r else c ∷ r) (compact_from st' cs)
]

unfoldable pub compact : Bytes → Option Bytes
unfolding compact_from
compact = compact_from start

compact_text : compact (codes "{ \"a b\" :\n[1 ,2 ] }") ≡ some (codes "{\"a b\":[1,2]}")
unfolding compact step at_eof
compact_text = refl

-- A line feed is dropped, or it is refused.
step_newline :
    (m : Mode) (st : State) (c : ℕ) {st' : State}
    → step m c st.open_brackets ≡ some st'
    → dropped m c ≡ false
    → c ≢ b'\n'
unfolding dropped step
step_newline in_string st c e d = ground arith
step_newline _ st c e d = ground arith

abbrev IsLine : Option Bytes → Type 0
IsLine none = Unit
IsLine (some r) = All (λ c. c ≢ b'\n') r

IsLine-keep :
    (d : Bool) (c : ℕ) (o : Option Bytes)
    → (d ≡ false → c ≢ b'\n')
    → IsLine o
    → IsLine (Option.map (λ r. if d then r else c ∷ r) o)
IsLine-keep d c none h l = tt
IsLine-keep true c (some r) h l = l
IsLine-keep false c (some r) h l = (h refl, l)

compact_from-IsLine : (s : Bytes) (st : State) → IsLine (compact_from st s)
unfolding compact_from
compact_from-IsLine [] st = elim (Bool-cases (at_eof st.mode st.open_brackets)) [
  | inl y ↦ rw y tt
  | inr n ↦ rw n tt
]
compact_from-IsLine (c ∷ cs) st = elim (Option-cases (step st.mode c st.open_brackets)) [
  | inl e ↦ rw (e, compact_from) tt
  | inr (st', e) ↦
      rw (e, compact_from)
        (IsLine-keep (dropped st.mode c) c (compact_from st' cs) (step_newline st.mode st c e)
          (compact_from-IsLine cs st'))
]

-- What `Compact` returns is a single line.
pub compact-no_newline : (s : Bytes) {r : Bytes} → compact s ≡ some r → All (λ c. c ≢ b'\n') r
unfolding compact
compact-no_newline s e = subst IsLine e (compact_from-IsLine s start)
