-- ===== src/Stdio/Client/Waiting.antt =====
-- The table of the calls that wait: each entry is another call, which has received nothing.
use golang_jsonrpc.Prelude.{
  ℕ, ◌≤◌, ◌≡◌, ◌≢◌, ◌⊎◌, inl, inr, refl, sym, subst, Bool, true, false, List, [], ◌∷◌, Option, some,
  Bool-cases, Bytes, bytes_eq, bytes_eq_iff, bytes_Eq, if◌then◌else◌, All,
}
use golang_jsonrpc.Prelude.Maps.{Map, lookup, insert, delete}
use golang_jsonrpc.Text.Decimal.{print}
use golang_jsonrpc.Rpc.Types.{Response}

abbrev pub Inbox : Type 0
Inbox = ℕ → List Response

-- A call that waits has received nothing, under its own number.
abbrev pub IsWaiting : ℕ → Inbox → Bytes × ℕ → Type 0
IsWaiting seq inbox (id, n) = (id ≡ print n) × ((n ≤ seq) × (inbox n ≡ []))

-- Each entry is the channel of another call.
abbrev pub Distinct : Map Bytes ℕ → Type 0
Distinct [] = Unit
Distinct ((id, n) ∷ m) = All (λ e. e.1 ≢ n) m × Distinct m

pick :
    (b : Bool) (i n : ℕ) (o : Option ℕ)
    → (if b then some i else o) ≡ some n
    → ((b ≡ true) × (i ≡ n)) ⊎ (o ≡ some n)
pick true i n o e = inl (refl, cc)
pick false i n o e = inr e

module _ (P : Bytes × ℕ → Type 0) where
  pub All-insert : (k : Bytes) (n : ℕ) (m : Map Bytes ℕ) → P (k, n) → All P m → All P (insert k n m)
  unfolding insert
  All-insert k n [] p h = (p, tt)
  All-insert k n ((j, i) ∷ m) p (q, h) = elim (Bool-cases (bytes_eq j k)) [
    | inl e ↦ rw e ((p, h))
    | inr e ↦ rw e ((q, All-insert k n m p h))
  ]

  pub All-delete : (k : Bytes) (m : Map Bytes ℕ) → All P m → All P (delete k m)
  unfolding delete
  All-delete k [] h = tt
  All-delete k ((j, i) ∷ m) (q, h) = elim (Bool-cases (bytes_eq j k)) [
    | inl e ↦ rw e (All-delete k m h)
    | inr e ↦ rw e ((q, All-delete k m h))
  ]

  pub All-lookup : (k : Bytes) (n : ℕ) (m : Map Bytes ℕ) → All P m → lookup k m ≡ some n → P (k, n)
  unfolding lookup
  All-lookup k n [] h e = cc
  All-lookup k n ((j, i) ∷ m) (q, h) e = elim (pick (bytes_eq j k) i n (lookup k m) e) [
    | inl (t, s) ↦ subst (λ x. P (x, n)) ((bytes_eq_iff j k).0 t) (subst (λ x. P (j, x)) s q)
    | inr e' ↦ All-lookup k n m h e'
  ]

  pub All-map :
      (Q : Bytes × ℕ → Type 0) (m : Map Bytes ℕ) → ((e : Bytes × ℕ) → P e → Q e) → All P m → All Q m
  All-map Q [] f h = tt
  All-map Q (e ∷ m) f (p, h) = (f e p, All-map Q m f h)

pub deleted-ne : (k : Bytes) (m : Map Bytes ℕ) → All (λ e. e.0 ≢ k) (delete k m)
unfolding delete
deleted-ne k [] = tt
deleted-ne k ((j, i) ∷ m) = elim (Bool-cases (bytes_eq j k)) [
  | inl e ↦ rw e (deleted-ne k m)
  | inr e ↦ rw e (((λ h. cc (e, (bytes_eq_iff j k).1 h)), deleted-ne k m))
]

pub Distinct-insert :
    (k : Bytes) (n : ℕ) (m : Map Bytes ℕ)
    → All (λ e. e.1 ≢ n) m
    → Distinct m
    → Distinct (insert k n m)
unfolding insert
Distinct-insert k n [] h d = (tt, tt)
Distinct-insert k n ((j, i) ∷ m) (q, h) (a, d) = elim (Bool-cases (bytes_eq j k)) [
  | inl e ↦ rw e ((h, d))
  | inr e ↦ rw e ((All-insert (λ e. e.1 ≢ i) k n m (λ x. q (sym x)) a, Distinct-insert k n m h d))
]

pub Distinct-delete : (k : Bytes) (m : Map Bytes ℕ) → Distinct m → Distinct (delete k m)
unfolding delete
Distinct-delete k [] d = tt
Distinct-delete k ((j, i) ∷ m) (a, d) = elim (Bool-cases (bytes_eq j k)) [
  | inl e ↦ rw e (Distinct-delete k m d)
  | inr e ↦ rw e ((All-delete (λ e. e.1 ≢ i) k m a, Distinct-delete k m d))
]

pub both_All :
    (P Q R : Bytes × ℕ → Type 0) (m : Map Bytes ℕ)
    → ((e : Bytes × ℕ) → P e → Q e → R e)
    → All P m
    → All Q m
    → All R m
both_All P Q R [] f h k = tt
both_All P Q R (e ∷ m) f (p, h) (q, k) = (f e p q, both_All P Q R m f h k)
