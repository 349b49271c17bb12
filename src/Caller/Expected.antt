-- ===== src/Caller/Expected.antt =====
-- An association list in which a key and a value belong together: no other entry has either.
use golang_jsonrpc.Prelude.{
  ℕ, ◌≡◌, ◌≢◌, ◌⊎◌, inl, inr, refl, sym, ap, ◌∙◌, Bool, true, false, Bool-cases, [], ◌∷◌, Option,
  some, Bytes, bytes_eq, bytes_eq_iff, bytes_Eq, if◌then◌else◌,
}
use golang_jsonrpc.Prelude.Maps.{Map, lookup, insert, delete}

-- No entry has this value.
abbrev pub Unused : ℕ → Map Bytes ℕ → Type 0
Unused i [] = Unit
Unused i ((k, v) ∷ m) = (v ≢ i) × Unused i m

-- No entry has this key, or this value.
abbrev pub Free : Bytes → ℕ → Map Bytes ℕ → Type 0
Free d i [] = Unit
Free d i ((k, v) ∷ m) = (k ≢ d) × (v ≢ i) × Free d i m

abbrev pub Once : Bytes → ℕ → Map Bytes ℕ → Type 0
Once d i [] = ⊥
Once d i ((k, v) ∷ m) = ((k ≡ d) × (v ≡ i) × Free d i m) ⊎ ((k ≢ d) × (v ≢ i) × Once d i m)

pub Option-some : {a b : ℕ} → some a ≡ some b → a ≡ b
Option-some e = cc

-- Whether two keys are equal, with the value of the test.
pub key-cases :
    (k d : Bytes) → ((k ≡ d) × (bytes_eq k d ≡ true)) ⊎ ((k ≢ d) × (bytes_eq k d ≡ false))
key-cases k d = elim (Bool-cases (bytes_eq k d)) [
  | inl e ↦ inl ((bytes_eq_iff k d).0 e, e)
  | inr e ↦ inr ((λ h. cc (e, (bytes_eq_iff k d).1 h)), e)
]

pub key_differs : (k d : Bytes) → k ≢ d → bytes_eq k d ≡ false
key_differs k d n = elim (key-cases k d) [ inl (e, t) ↦ absurd (n e) | inr (e, t) ↦ t ]

pub Free-Unused : (d : Bytes) (i : ℕ) (m : Map Bytes ℕ) → Free d i m → Unused i m
Free-Unused d i [] h = tt
Free-Unused d i ((k, v) ∷ m) h = (h.1, Free-Unused d i m h.2)

pub lookup-Once : (d : Bytes) (i : ℕ) (m : Map Bytes ℕ) → Once d i m → lookup d m ≡ some i
unfolding lookup
lookup-Once d i [] h = absurd h
lookup-Once d i ((k, v) ∷ m) (inl (a, b, f)) = rw ((bytes_eq_iff k d).1 a, b) refl
lookup-Once d i ((k, v) ∷ m) (inr (a, b, h)) = rw (key_differs k d a) (lookup-Once d i m h)

found_other :
    (t : Bool) (v i j : ℕ) (o : Option ℕ)
    → v ≢ i
    → (o ≡ some j → j ≢ i)
    → (if t then some v else o) ≡ some j
    → j ≢ i
found_other true v i j o n h e = λ k. n (Option-some e ∙ k)
found_other false v i j o n h e = h e

pub lookup-Unused :
    (k : Bytes) (i j : ℕ) (m : Map Bytes ℕ) → Unused i m → lookup k m ≡ some j → j ≢ i
unfolding lookup
lookup-Unused k i j [] u e = cc
lookup-Unused k i j ((x, v) ∷ m) u e =
    found_other (bytes_eq x k) v i j (lookup k m) u.0 (lookup-Unused k i j m u.1) e

-- A value that is found belongs to the key asked for.
pub lookup-other :
    (k d : Bytes) (i j : ℕ) (m : Map Bytes ℕ) → Once d i m → k ≢ d → lookup k m ≡ some j → j ≢ i
unfolding lookup
lookup-other k d i j [] o n e = absurd o
lookup-other k d i j ((x, v) ∷ m) (inl (a, b, f)) n e =
    lookup-Unused k i j m (Free-Unused d i m f)
      (sym (ap (λ t. if t then some v else lookup k m) (key_differs x k (λ h. n (sym h ∙ a)))) ∙ e)
lookup-other k d i j ((x, v) ∷ m) (inr (a, b, o)) n e =
    found_other (bytes_eq x k) v i j (lookup k m) b (lookup-other k d i j m o n) e

-- `delete`
pub delete-Unused : (i : ℕ) (k : Bytes) (m : Map Bytes ℕ) → Unused i m → Unused i (delete k m)
unfolding delete
delete-Unused i k [] h = tt
delete-Unused i k ((j, w) ∷ m) h = elim (key-cases j k) [
  | inl (e, t) ↦ rw t (delete-Unused i k m h.1)
  | inr (e, t) ↦ rw t (h.0, delete-Unused i k m h.1)
]

delete-Free : (d : Bytes) (i : ℕ) (k : Bytes) (m : Map Bytes ℕ) → Free d i m → Free d i (delete k m)
unfolding delete
delete-Free d i k [] h = tt
delete-Free d i k ((j, w) ∷ m) h = elim (key-cases j k) [
  | inl (e, t) ↦ rw t (delete-Free d i k m h.2)
  | inr (e, t) ↦ rw t (h.0, h.1, delete-Free d i k m h.2)
]

pub delete-Once :
    (d : Bytes) (i : ℕ) (k : Bytes) (m : Map Bytes ℕ) → Once d i m → k ≢ d → Once d i (delete k m)
unfolding delete
delete-Once d i k [] h n = absurd h
delete-Once d i k ((j, w) ∷ m) (inl (a, b, f)) n =
    rw (key_differs j k (λ h. n (sym h ∙ a))) (inl (a, b, delete-Free d i k m f))
delete-Once d i k ((j, w) ∷ m) (inr (a, b, h)) n = elim (key-cases j k) [
  | inl (e, t) ↦ rw t (delete-Once d i k m h n)
  | inr (e, t) ↦ rw t (inr (a, b, delete-Once d i k m h n))
]

-- The value is gone with its key.
pub delete-own : (d : Bytes) (i : ℕ) (m : Map Bytes ℕ) → Once d i m → Unused i (delete d m)
unfolding delete
delete-own d i [] h = absurd h
delete-own d i ((j, w) ∷ m) (inl (a, b, f)) =
    rw ((bytes_eq_iff j d).1 a) (delete-Unused i d m (Free-Unused d i m f))
delete-own d i ((j, w) ∷ m) (inr (a, b, h)) = rw (key_differs j d a) (b, delete-own d i m h)

-- `insert`
pub insert-Unused :
    (i : ℕ) (k : Bytes) (v : ℕ) (m : Map Bytes ℕ) → v ≢ i → Unused i m → Unused i (insert k v m)
unfolding insert
insert-Unused i k v [] n h = (n, tt)
insert-Unused i k v ((j, w) ∷ m) n h = elim (key-cases j k) [
  | inl (e, t) ↦ rw t (n, h.1)
  | inr (e, t) ↦ rw t (h.0, insert-Unused i k v m n h.1)
]

pub insert-Free :
    (d : Bytes) (i : ℕ) (k : Bytes) (v : ℕ) (m : Map Bytes ℕ)
    → k ≢ d
    → v ≢ i
    → Free d i m
    → Free d i (insert k v m)
unfolding insert
insert-Free d i k v [] n o h = (n, o, tt)
insert-Free d i k v ((j, w) ∷ m) n o h = elim (key-cases j k) [
  | inl (e, t) ↦ rw t (n, o, h.2)
  | inr (e, t) ↦ rw t (h.0, h.1, insert-Free d i k v m n o h.2)
]

pub insert-own : (d : Bytes) (i : ℕ) (m : Map Bytes ℕ) → Free d i m → Once d i (insert d i m)
unfolding insert
insert-own d i [] h = inl (refl, refl, tt)
insert-own d i ((j, w) ∷ m) h = rw (key_differs j d h.0) (inr (h.0, h.1, insert-own d i m h.2))

pub insert-Once :
    (d : Bytes) (i : ℕ) (k : Bytes) (v : ℕ) (m : Map Bytes ℕ)
    → k ≢ d
    → v ≢ i
    → Once d i m
    → Once d i (insert k v m)
unfolding insert
insert-Once d i k v [] n o h = absurd h
insert-Once d i k v ((j, w) ∷ m) n o (inl (a, b, f)) =
    rw (key_differs j k (λ h. n (sym h ∙ a))) (inl (a, b, insert-Free d i k v m n o f))
insert-Once d i k v ((j, w) ∷ m) n o (inr (a, b, h)) = elim (key-cases j k) [
  | inl (e, t) ↦ rw t (inr (n, o, h))
  | inr (e, t) ↦ rw t (inr (a, b, insert-Once d i k v m n o h))
]
