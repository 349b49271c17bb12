-- ===== src/Rpc/Typed/EmptyList.antt =====
-- `isEmptyJSONArray` accepts the spellings of an empty JSON array, and nothing else.
use golang_jsonrpc.Prelude.{
  ℕ, ◌≡◌, ◌↔◌, ◌⊎◌, ==_iff, refl, sym, ap, ◌∙◌, Bool, true, false, inl, inr, [], ◌∷◌, ◌++◌,
  append-nil, Option, none, some, Bytes, All, if◌then◌else◌, ◌==◌,
}
use golang_jsonrpc.Rpc.Typed.{
  Seen, nothing, opened, closed, is_json_space, see, see_all, is_empty_json_array, open_bracket,
  close_bracket, is_closed,
}

abbrev pub IsSpace : ℕ → Type 0
IsSpace b = is_json_space b ≡ true

-- White space, `[`, white space, `]`, white space.
pub record IsEmptyList (s : Bytes) : Type 0 where
  pub before : Bytes
  pub inside : Bytes
  pub behind : Bytes
  pub blank_before : All IsSpace before
  pub blank_inside : All IsSpace inside
  pub blank_behind : All IsSpace behind
  pub text : s ≡ before ++ b'[' ∷ (inside ++ b']' ∷ behind)

-- White space changes nothing.
see_space : (b : ℕ) (seen : Seen) → IsSpace b → see b seen ≡ some seen
unfolding see
see_space b seen h = rw h refl

see_blank :
    (w s : Bytes) (seen : Seen)
    → All IsSpace w
    → see_all (some seen) (w ++ s) ≡ see_all (some seen) s
unfolding see_all
see_blank [] s seen h = refl
see_blank (b ∷ w) s seen h =
    ap (λ o. see_all o (w ++ s)) (see_space b seen h.0) ∙ see_blank w s seen h.1

IsEmptyList-see :
    (before inside behind : Bytes)
    → All IsSpace before
    → All IsSpace inside
    → All IsSpace behind
    → is_empty_json_array (before ++ b'[' ∷ (inside ++ b']' ∷ behind)) ≡ true
unfolding see_all see open_bracket close_bracket is_closed
IsEmptyList-see before inside behind h k l =
    see_blank before (b'[' ∷ (inside ++ b']' ∷ behind)) nothing h
    ∙ see_blank inside (b']' ∷ behind) opened k
    ∙ ap (see_all (some closed)) (sym (append-nil behind))
    ∙ see_blank behind [] closed l

-- One of the three bytes has been seen.
pick :
    (x y z : Bool) (p q r : Option Seen) (s : Bytes)
    → see_all (if x then p else if y then q else if z then r else none) s ≡ true
    → ((x ≡ true) × (see_all p s ≡ true))
      ⊎ ((y ≡ true) × (see_all q s ≡ true))
      ⊎ ((z ≡ true) × (see_all r s ≡ true))
unfolding see_all
pick true y z p q r s e = inl (refl, e)
pick false true z p q r s e = inr (inl (refl, e))
pick false false true p q r s e = inr (inr (refl, e))
pick false false false p q r s e = cc

see-cases :
    (seen : Seen) (b : ℕ) (s : Bytes)
    → see_all (see b seen) s ≡ true
    → (IsSpace b × (see_all (some seen) s ≡ true))
      ⊎ ((b == b'[' ≡ true) × (see_all (open_bracket seen) s ≡ true))
      ⊎ ((b == b']' ≡ true) × (see_all (close_bracket seen) s ≡ true))
unfolding see
see-cases seen b s e =
    pick (is_json_space b) (b == b'[') (b == b']') (some seen) (open_bracket seen)
      (close_bracket seen) s e

never : {A : Type 0} (s : Bytes) → see_all none s ≡ true → A
unfolding see_all
never s e = absurd cc

closed-IsSpace : (s : Bytes) → see_all (some closed) s ≡ true → All IsSpace s
unfolding see_all open_bracket close_bracket
closed-IsSpace [] e = tt
closed-IsSpace (b ∷ s) e = elim (see-cases closed b s e) [
  | inl (h, k) ↦ (h, closed-IsSpace s k)
  | inr (inl (h, k)) ↦ never s k
  | inr (inr (h, k)) ↦ never s k
]

-- What follows an open bracket.
record Rest (s : Bytes) : Type 0 where
  inside : Bytes
  behind : Bytes
  blank_inside : All IsSpace inside
  blank_behind : All IsSpace behind
  text : s ≡ inside ++ b']' ∷ behind

opened-Rest : (s : Bytes) → see_all (some opened) s ≡ true → Rest s
unfolding see_all open_bracket close_bracket is_closed
opened-Rest [] e = absurd cc
opened-Rest (b ∷ s) e = elim (see-cases opened b s e) [
  | inl (h, k) ↦
      let r = opened-Rest s k in
      record {
        inside = b ∷ r.inside;
        behind = r.behind;
        blank_inside = (h, r.blank_inside);
        blank_behind = r.blank_behind;
        text = ap (◌∷◌ b) r.text;
      }
  | inr (inl (h, k)) ↦ never s k
  | inr (inr (h, k)) ↦ record {
    inside = [];
    behind = s;
    blank_inside = tt;
    blank_behind = closed-IsSpace s k;
    text = ap (λ x. x ∷ s) ((==_iff b b']').0 h);
  }
]

nothing-IsEmptyList : (s : Bytes) → see_all (some nothing) s ≡ true → IsEmptyList s
unfolding see_all open_bracket close_bracket is_closed
nothing-IsEmptyList [] e = absurd cc
nothing-IsEmptyList (b ∷ s) e = elim (see-cases nothing b s e) [
  | inl (h, k) ↦
      let r = nothing-IsEmptyList s k in
      record {
        before = b ∷ r.before;
        inside = r.inside;
        behind = r.behind;
        blank_before = (h, r.blank_before);
        blank_inside = r.blank_inside;
        blank_behind = r.blank_behind;
        text = ap (◌∷◌ b) r.text;
      }
  | inr (inl (h, k)) ↦
      let r = opened-Rest s k in
      record {
        before = [];
        inside = r.inside;
        behind = r.behind;
        blank_before = tt;
        blank_inside = r.blank_inside;
        blank_behind = r.blank_behind;
        text = ap (λ x. x ∷ s) ((==_iff b b'[').0 h) ∙ ap (◌∷◌ b'[') r.text;
      }
  | inr (inr (h, k)) ↦ never s k
]

-- Exactly the spellings of an empty JSON array are accepted: `[` and `]` with white space before,
-- between and behind them.
pub is_empty_json_array-IsEmptyList : (s : Bytes) → (is_empty_json_array s ≡ true) ↔ IsEmptyList s
is_empty_json_array-IsEmptyList s = (
  nothing-IsEmptyList s,
  λ r.
      ap is_empty_json_array r.text
      ∙ IsEmptyList-see r.before r.inside r.behind r.blank_before r.blank_inside r.blank_behind,
)
