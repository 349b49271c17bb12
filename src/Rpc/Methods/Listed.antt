-- ===== src/Rpc/Methods/Listed.antt =====
-- `Methods` lists what is registered, sorted by name.
use golang_jsonrpc.Prelude.{
  ℕ, ◌+◌, ◌≡◌, refl, ap, ◌∙◌, Bool, true, false, Bool-cases, inl, inr, List, [], ◌∷◌, Bytes,
  if◌then◌else◌, arith,
}
use golang_jsonrpc.Rpc.Config.{Config, MethodInfo}
use golang_jsonrpc.Rpc.Methods.{bytes_lt, insert_sorted, sort_by_name, infos, methods}

-- No name is smaller than the one before it.
abbrev pub IsSorted : List MethodInfo → Type 0
IsSorted [] = Unit
IsSorted (x ∷ []) = Unit
IsSorted (x ∷ y ∷ l) = (bytes_lt y.name x.name ≡ false) × IsSorted (y ∷ l)

-- What the entries of a list weigh; with a weight of 1 for one entry and 0 for all others, how
-- often that entry is there.
unfoldable pub weight : (MethodInfo → ℕ) → List MethodInfo → ℕ
weight f [] = 0
weight f (x ∷ xs) = f x + weight f xs

bytes_lt-asymmetric : (s t : Bytes) → bytes_lt s t ≡ true → bytes_lt t s ≡ false
unfolding bytes_lt
bytes_lt-asymmetric [] [] h = refl
bytes_lt-asymmetric [] (b ∷ t) h = refl
bytes_lt-asymmetric (a ∷ s) [] h = cc
bytes_lt-asymmetric (a ∷ s) (b ∷ t) h = ground (arith, bytes_lt-asymmetric s t)

weight-insert_sorted :
    (f : MethodInfo → ℕ) (mi : MethodInfo) (xs : List MethodInfo)
    → weight f (insert_sorted mi xs) ≡ f mi + weight f xs
unfolding weight insert_sorted
weight-insert_sorted f mi [] = refl
weight-insert_sorted f mi (x ∷ xs) = elim (Bool-cases (bytes_lt x.name mi.name)) [
  | inl e ↦ rw e (omega (arith, weight-insert_sorted f mi xs))
  | inr e ↦ rw e refl
]

weight-sort_by_name :
    (f : MethodInfo → ℕ) (xs : List MethodInfo) → weight f (sort_by_name xs) ≡ weight f xs
unfolding weight sort_by_name
weight-sort_by_name f [] = refl
weight-sort_by_name f (x ∷ xs) =
    weight-insert_sorted f x (sort_by_name xs) ∙ ap (λ n. f x + n) (weight-sort_by_name f xs)

-- In front of a list that begins with one of two names, neither of them smaller.
in_front :
    (x y mi : MethodInfo) (b : Bool) (l m : List MethodInfo)
    → bytes_lt y.name x.name ≡ false
    → bytes_lt mi.name x.name ≡ false
    → IsSorted (if b then y ∷ l else mi ∷ m)
    → IsSorted (x ∷ (if b then y ∷ l else mi ∷ m))
in_front x y mi true l m h n k = (h, k)
in_front x y mi false l m h n k = (n, k)

behind-IsSorted :
    (x mi : MethodInfo) (xs : List MethodInfo)
    → bytes_lt mi.name x.name ≡ false
    → IsSorted (x ∷ xs)
    → IsSorted (insert_sorted mi xs)
    → IsSorted (x ∷ insert_sorted mi xs)
unfolding insert_sorted
behind-IsSorted x mi [] n h k = (n, tt)
behind-IsSorted x mi (y ∷ ys) n h k =
    in_front x y mi (bytes_lt y.name mi.name) (insert_sorted mi ys) (y ∷ ys) h.0 n k

tail-IsSorted : (x : MethodInfo) (xs : List MethodInfo) → IsSorted (x ∷ xs) → IsSorted xs
tail-IsSorted x [] h = tt
tail-IsSorted x (y ∷ ys) h = h.1

insert_sorted-IsSorted :
    (mi : MethodInfo) (xs : List MethodInfo) → IsSorted xs → IsSorted (insert_sorted mi xs)
unfolding insert_sorted
insert_sorted-IsSorted mi [] h = tt
insert_sorted-IsSorted mi (x ∷ xs) h = elim (Bool-cases (bytes_lt x.name mi.name)) [
  | inl e ↦ rw e (
      behind-IsSorted x mi xs (bytes_lt-asymmetric x.name mi.name e) h
        (insert_sorted-IsSorted mi xs (tail-IsSorted x xs h)))
  | inr e ↦ rw e (e, h)
]

sort_by_name-IsSorted : (xs : List MethodInfo) → IsSorted (sort_by_name xs)
unfolding sort_by_name
sort_by_name-IsSorted [] = tt
sort_by_name-IsSorted (x ∷ xs) =
    insert_sorted-IsSorted x (sort_by_name xs) (sort_by_name-IsSorted xs)

-- `Methods` lists the metadata of every registered method, each as often as it is registered, in the
-- order of the names.
pub methods-IsSorted :
    {C : Type 0} (c : Config C)
    → IsSorted (methods c)
      × ((f : MethodInfo → ℕ) → weight f (methods c) ≡ weight f (infos c.method_info))
unfolding methods
methods-IsSorted c =
    (sort_by_name-IsSorted (infos c.method_info), λ f. weight-sort_by_name f (infos c.method_info))
