-- ===== src/Batch/Text.antt =====
-- The shape of the JSON text that the scans of handle.go run over: strings with escapes and balanced
-- brackets, with no other claim about the bytes. A JSON value is such a text.
use golang_jsonrpc.Prelude.{
  ℕ, ◌≡◌, ◌≢◌, Bool, true, false, ◌||◌, not, List, [], ◌∷◌, ◌++◌, Bytes, ◌==◌, append_assoc, ap,
  ◌∙◌, arith, All,
}
use golang_jsonrpc.Text.Space.{trim_space, trim_space_around, IsSpace, IsVisible}
use golang_jsonrpc.Batch.Length.{is_blank, is_open, is_close}

-- What stands between the quotation marks of a string.
pub data Quoted : Bytes → Type 0 where
  done : Quoted []
  plain : (c : ℕ) {s : Bytes} → c ≢ b'"' → c ≢ b'\\' → Quoted s → Quoted (c ∷ s)
  escape : (c : ℕ) {s : Bytes} → Quoted s → Quoted (b'\\' ∷ c ∷ s)

abbrev pub is_special : ℕ → Bool
is_special c = c == b'"' || is_open c || is_close c || c == b','

-- Text with its brackets balanced; the flag allows commas outside of brackets and strings.
pub data Balanced : Bool → Bytes → Type 0 where
  done : {commas : Bool} → Balanced commas []
  byte :
      {commas : Bool} (c : ℕ) {s : Bytes}
      → is_special c ≡ false
      → Balanced commas s
      → Balanced commas (c ∷ s)
  comma : {s : Bytes} → Balanced true s → Balanced true (b',' ∷ s)
  quoted :
      {commas : Bool} (q s : Bytes) {r : Bytes}
      → Quoted q
      → Balanced commas s
      → r ≡ b'"' ∷ (q ++ b'"' ∷ s)
      → Balanced commas r
  group :
      {commas : Bool} (o c : ℕ) (t s : Bytes) {r : Bytes}
      → is_open o ≡ true
      → Balanced true t
      → is_close c ≡ true
      → Balanced commas s
      → r ≡ o ∷ (t ++ c ∷ s)
      → Balanced commas r

abbrev pub Visible : Bytes → Type 0
Visible [] = ⊥
Visible (c ∷ s) = is_blank c ≡ false

abbrev pub Blank : Bytes → Type 0
Blank s = All (λ c. is_blank c ≡ true) s

pub Blank-IsSpace : (s : Bytes) → Blank s → All IsSpace s
Blank-IsSpace [] h = tt
Blank-IsSpace (c ∷ s) h = (ground (arith, h.0), Blank-IsSpace s h.1)

-- A text with white space around it.
pub record Frame : Type 0 where
  pub before : Bytes
  pub after : Bytes

pub record IsBlankFrame (f : Frame) : Type 0 where
  pub blank_before : Blank f.before
  pub blank_after : Blank f.after

abbrev pub around : Frame → Bytes → Bytes
around f t = f.before ++ (t ++ f.after)

pub trim_space-around :
    (f : Frame) (c : ℕ) (s : Bytes) (d : ℕ)
    → IsBlankFrame f
    → IsVisible c
    → IsVisible d
    → trim_space (around f (c ∷ (s ++ d ∷ []))) ≡ c ∷ (s ++ d ∷ [])
trim_space-around f c s d h hc hd =
    trim_space_around f.before c s d f.after (Blank-IsSpace f.before h.blank_before) hc hd
      (Blank-IsSpace f.after h.blank_after)

-- The text of an array's element from its first byte that is no white space to the comma or bracket
-- behind it, white space in front of which belongs to it.
pub record IsElement (e : Bytes) : Type 0 where
  pub balanced : Balanced false e
  pub visible : Visible e

-- An element with the white space in front of it.
pub record Padded : Type 0 where
  pub space : Bytes
  pub element : Bytes

pub record IsPadded (p : Padded) : Type 0 where
  pub blank : Blank p.space
  pub is_element : IsElement p.element

abbrev pub padded_text : Padded → Bytes
padded_text p = p.space ++ p.element

abbrev pub element_of : Padded → Bytes
element_of p = p.element

-- The elements with a comma between each two, or the white space of an array that has none.
abbrev pub join : Bytes → List Padded → Bytes
join space [] = space
join space (p ∷ []) = padded_text p
join space (p ∷ q ∷ ps) = padded_text p ++ b',' ∷ join space (q ∷ ps)

abbrev pub array : Bytes → List Padded → Bytes
array space ps = b'[' ∷ (join space ps ++ b']' ∷ [])

-- The grouping that a scan meets, with the text behind.
pub quoted-append :
    (q s rest : Bytes) {r : Bytes}
    → r ≡ b'"' ∷ (q ++ b'"' ∷ s)
    → r ++ rest ≡ b'"' ∷ (q ++ b'"' ∷ (s ++ rest))
quoted-append q s rest e = ap (λ t. t ++ rest) e ∙ ap (◌∷◌ b'"') (append_assoc q (b'"' ∷ s) rest)

pub group-append :
    (o c : ℕ) (t s rest : Bytes) {r : Bytes}
    → r ≡ o ∷ (t ++ c ∷ s)
    → r ++ rest ≡ o ∷ (t ++ c ∷ (s ++ rest))
group-append o c t s rest e = ap (λ t. t ++ rest) e ∙ ap (◌∷◌ o) (append_assoc t (c ∷ s) rest)

-- Whether a text has a byte that is no white space.
abbrev pub has_visible : Bytes → Bool
has_visible [] = false
has_visible (c ∷ s) = not (is_blank c) || has_visible s

pub is_open-visible : (c : ℕ) (s : Bytes) → is_open c ≡ true → has_visible (c ∷ s) ≡ true
is_open-visible c s h = ground arith

pub Visible-has_visible : (e : Bytes) → Visible e → has_visible e ≡ true
Visible-has_visible [] h = elim h [ ]
Visible-has_visible (c ∷ s) h = ground arith
