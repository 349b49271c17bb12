-- ===== src/Text/Space.antt =====
-- `bytes.TrimSpace` and `bytes.EqualFold` of Go's standard library, on byte strings.
use mathlib.Core.List.{reverse, reverse-append, reverse-reverse}
use golang_jsonrpc.Prelude.{
  ℕ, zero, suc, ◌+◌, ◌-◌, ◌<◌, ◌≡◌, refl, ap, ◌∙◌, sym, Bool, true, false, ◌&&◌, ◌||◌, [], ◌∷◌,
  ◌++◌, arith, Bytes, All, ◌≢◌, subst, leb, ◌==◌, if◌then◌else◌,
}

-- The ASCII white space of `unicode.IsSpace`.
abbrev pub is_space : ℕ → Bool
is_space c = c == 32 || (leb 9 c && leb c 13)

-- The white space above ASCII, by its UTF-8 encoding.
abbrev is_space2 : ℕ → ℕ → Bool
is_space2 a b = a == 0xC2 && (b == 0x85 || b == 0xA0)

abbrev is_space3 : ℕ → ℕ → ℕ → Bool
is_space3 a b c =
    (a == 0xE1 && b == 0x9A && c == 0x80)
    || (a == 0xE2
        && b == 0x80
        && ((leb 0x80 c && leb c 0x8A) || c == 0xA8 || c == 0xA9 || c == 0xAF))
    || (a == 0xE2 && b == 0x81 && c == 0x9F)
    || (a == 0xE3 && b == 0x80 && c == 0x80)

-- The width of the white space that a text begins with, 0 if it begins with none.
leading : Bytes → ℕ
leading [] = 0
leading (a ∷ []) = if is_space a then 1 else 0
leading (a ∷ b ∷ []) = if is_space a then 1 else if is_space2 a b then 2 else 0
leading (a ∷ b ∷ c ∷ _) =
    if is_space a then 1 else if is_space2 a b then 2 else if is_space3 a b c then 3 else 0

-- The same on a reversed text.
trailing : Bytes → ℕ
trailing [] = 0
trailing (c ∷ []) = if is_space c then 1 else 0
trailing (c ∷ b ∷ []) = if is_space c then 1 else if is_space2 b c then 2 else 0
trailing (c ∷ b ∷ a ∷ _) =
    if is_space c then 1 else if is_space2 b c then 2 else if is_space3 a b c then 3 else 0

-- Skips `k` bytes, then white space as `width` finds it.
skip : (Bytes → ℕ) → ℕ → Bytes → Bytes
skip width k [] = []
skip width (suc k) (c ∷ cs) = skip width k cs
skip width zero (c ∷ cs) =
    let rest = skip width (width (c ∷ cs) - 1) cs in if width (c ∷ cs) == 0 then c ∷ cs else rest

unfoldable pub trim_space : Bytes → Bytes
unfolding skip leading trailing
trim_space s = reverse (skip trailing 0 (reverse (skip leading 0 s)))

-- Printable ASCII, which trimming leaves alone.
abbrev pub IsVisible : ℕ → Type 0
IsVisible c = (32 < c) × (c < 128)

skip-leading : (c : ℕ) (cs : Bytes) → IsVisible c → skip leading 0 (c ∷ cs) ≡ c ∷ cs
unfolding skip leading
skip-leading c [] h = ground arith
skip-leading c (b ∷ []) h = ground arith
skip-leading c (b ∷ a ∷ cs) h = ground arith

skip-leading_blank : (c : ℕ) (cs : Bytes) → IsVisible c → skip leading 0 (32 ∷ c ∷ cs) ≡ c ∷ cs
unfolding skip leading
skip-leading_blank c [] h = ground arith
skip-leading_blank c (b ∷ []) h = ground arith
skip-leading_blank c (b ∷ a ∷ cs) h = ground arith

skip-trailing : (c : ℕ) (cs : Bytes) → IsVisible c → skip trailing 0 (c ∷ cs) ≡ c ∷ cs
unfolding skip trailing
skip-trailing c [] h = ground arith
skip-trailing c (b ∷ []) h = ground arith
skip-trailing c (b ∷ a ∷ []) h = ground arith
skip-trailing c (b ∷ a ∷ d ∷ cs) h = ground arith

-- A text that ends in a visible byte keeps its end.
trim_end :
    (s : Bytes) (d : ℕ)
    → IsVisible d
    → reverse (skip trailing 0 (reverse (s ++ d ∷ []))) ≡ s ++ d ∷ []
trim_end s d h = rw (reverse-append s (d ∷ [])) (
    ap reverse (skip-trailing d (reverse s) h)
    ∙ ap reverse (sym (reverse-append s (d ∷ [])))
    ∙ reverse-reverse (s ++ d ∷ []))

-- The last byte of a text that is not empty, with what holds of it.
last_split :
    (c : ℕ) (cs : Bytes)
    → All IsVisible (c ∷ cs)
    → (s : Bytes) × (d : ℕ) × (c ∷ cs ≡ s ++ d ∷ []) × IsVisible d
last_split c [] h = ([], c, refl, h.0)
last_split c (b ∷ cs) h = let (s, d, e, v) = last_split b cs h.1 in (c ∷ s, d, ap (◌∷◌ c) e, v)

trim_right_visible :
    (c : ℕ) (cs : Bytes)
    → All IsVisible (c ∷ cs)
    → reverse (skip trailing 0 (reverse (c ∷ cs))) ≡ c ∷ cs
trim_right_visible c cs h =
    let (s, d, e, v) = last_split c cs h in
    subst (λ t. reverse (skip trailing 0 (reverse t)) ≡ t) (sym e) (trim_end s d v)

-- Visible text behind one blank is what trimming leaves.
pub trim_space-blank : (s : Bytes) → s ≢ [] → All IsVisible s → trim_space (32 ∷ s) ≡ s
unfolding trim_space
trim_space-blank [] n h = absurd (n refl)
trim_space-blank (c ∷ cs) n h = rw (skip-leading_blank c cs h.0) (trim_right_visible c cs h)

-- Visible text is left as it is.
pub trim_space-visible : (s : Bytes) → All IsVisible s → trim_space s ≡ s
unfolding trim_space
trim_space-visible [] h = unfold skip in refl
trim_space-visible (c ∷ cs) h = rw (skip-leading c cs h.0) (trim_right_visible c cs h)

abbrev pub IsSpace : ℕ → Type 0
IsSpace c = is_space c ≡ true

skip-leading_spaces : (w t : Bytes) → All IsSpace w → skip leading 0 (w ++ t) ≡ skip leading 0 t
unfolding skip leading
skip-leading_spaces [] t h = refl
skip-leading_spaces (c ∷ []) [] h = ground (arith, h.0)
skip-leading_spaces (c ∷ []) (x ∷ []) h = ground (arith, h.0)
skip-leading_spaces (c ∷ []) (x ∷ y ∷ t) h = ground (arith, h.0)
skip-leading_spaces (c ∷ d ∷ []) [] h = ground (arith, h.0, skip-leading_spaces (d ∷ []) [] h.1)
skip-leading_spaces (c ∷ d ∷ []) (x ∷ t) h =
    ground (arith, h.0, skip-leading_spaces (d ∷ []) (x ∷ t) h.1)
skip-leading_spaces (c ∷ d ∷ e ∷ w) t h = ground (arith, h.0, skip-leading_spaces (d ∷ e ∷ w) t h.1)

skip-trailing_spaces : (w t : Bytes) → All IsSpace w → skip trailing 0 (w ++ t) ≡ skip trailing 0 t
unfolding skip trailing
skip-trailing_spaces [] t h = refl
skip-trailing_spaces (c ∷ []) [] h = ground (arith, h.0)
skip-trailing_spaces (c ∷ []) (x ∷ []) h = ground (arith, h.0)
skip-trailing_spaces (c ∷ []) (x ∷ y ∷ t) h = ground (arith, h.0)
skip-trailing_spaces (c ∷ d ∷ []) [] h = ground (arith, h.0, skip-trailing_spaces (d ∷ []) [] h.1)
skip-trailing_spaces (c ∷ d ∷ []) (x ∷ t) h =
    ground (arith, h.0, skip-trailing_spaces (d ∷ []) (x ∷ t) h.1)
skip-trailing_spaces (c ∷ d ∷ e ∷ w) t h =
    ground (arith, h.0, skip-trailing_spaces (d ∷ e ∷ w) t h.1)

All-append-one : (w : Bytes) (c : ℕ) → All IsSpace w → IsSpace c → All IsSpace (w ++ c ∷ [])
All-append-one [] c h k = (k, tt)
All-append-one (d ∷ w) c h k = (h.0, All-append-one w c h.1 k)

All-reverse : (w : Bytes) → All IsSpace w → All IsSpace (reverse w)
All-reverse [] h = tt
All-reverse (c ∷ w) h =
    subst (All IsSpace) (sym (reverse-append (c ∷ []) w))
      (All-append-one (reverse w) c (All-reverse w h.1) h.0)

-- White space around a text between two visible bytes is trimmed.
pub trim_space_around :
    (before : Bytes) (c : ℕ) (s : Bytes) (d : ℕ) (after : Bytes)
    → All IsSpace before
    → IsVisible c
    → IsVisible d
    → All IsSpace after
    → trim_space (before ++ ((c ∷ (s ++ d ∷ [])) ++ after)) ≡ c ∷ (s ++ d ∷ [])
unfolding trim_space
trim_space_around before c s d after hb hc hd ha =
    ap (λ t. reverse (skip trailing 0 (reverse t)))
      (skip-leading_spaces before _ hb ∙ skip-leading c ((s ++ d ∷ []) ++ after) hc)
    ∙ ap (λ t. reverse (skip trailing 0 t)) (reverse-append (c ∷ (s ++ d ∷ [])) after)
    ∙ ap reverse (skip-trailing_spaces (reverse after) _ (All-reverse after ha))
    ∙ trim_end (c ∷ s) d hd

abbrev lower : ℕ → ℕ
lower c = if leb b'A' c && leb c b'Z' then c + 32 else c

-- `bytes.EqualFold` against ASCII text with no `k` and no `s`, the only ASCII letters that other
-- runes fold to.
unfoldable pub equal_fold : Bytes → Bytes → Bool
equal_fold [] [] = true
equal_fold (x ∷ xs) (y ∷ ys) = lower x == lower y && equal_fold xs ys
equal_fold [] (y ∷ ys) = false
equal_fold (x ∷ xs) [] = false
