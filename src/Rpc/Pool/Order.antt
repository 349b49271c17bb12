-- ===== src/Rpc/Pool/Order.antt =====
-- Whatever the schedule of the workers, the responses are those of the entries, in their order.
use mathlib.Core.Option
use golang_jsonrpc.Prelude.{
  ℕ, zero, suc, ◌<◌, ◌≡◌, ◌≢◌, ◌⊎◌, inl, inr, refl, ap, sym, ◌∙◌, subst, Bool-cases, List, [], ◌∷◌,
  map, Option, none, some, ◌==◌, ==_iff, length, length-set, length-replicate, get_elem?,
  get_elem?-set_self, get_elem?-set_ne, set, arith,
}
use golang_jsonrpc.Rpc.Types.{Response}
use golang_jsonrpc.Rpc.Config.{Config}
use golang_jsonrpc.Rpc.Dispatch.{World}
use golang_jsonrpc.Rpc.Entries.{Entry, cons_some, handle_entry, handle_batch_rpc}
use golang_jsonrpc.Rpc.Pool.{
  Pool, In, release, start, present, Step, takes, stores, Run, done, next, IsFinished,
}

In-release : (i j : ℕ) (js : List ℕ) → j ≢ i → In j js → In j (release i js)
unfolding release
In-release i j [] h m = m
In-release i j (k ∷ js) h m = elim (Bool-cases (k == i)) [
  | inl e ↦ rw e (elim m [ inl s ↦ absurd (h (sym s ∙ (==_iff k i).0 e)) | inr t ↦ t ])
  | inr e ↦ rw e (elim m [ inl s ↦ inl s | inr t ↦ inr (In-release i j js h t) ])
]

get_elem?-lt : {A : Type 0} (xs : List A) (i : ℕ) {a : A} → get_elem? xs i ≡ some a → i < length xs
get_elem?-lt [] i e = cc
get_elem?-lt (x ∷ xs) zero e = omega arith
get_elem?-lt (x ∷ xs) (suc i) e = omega (arith, get_elem?-lt xs i e)

some_eq : {A : Type 0} {a b : A} → some a ≡ some b → a ≡ b
some_eq e = cc

-- A list is what its elements are.
slots_map :
    {A B : Type 0} (f : A → B) (xs : List A) (ys : List B)
    → length ys ≡ length xs
    → ((i : ℕ) → i < length xs → get_elem? ys i ≡ Option.map f (get_elem? xs i))
    → ys ≡ map f xs
slots_map f [] [] l h = refl
slots_map f [] (y ∷ ys) l h = absurd (omega (arith, l))
slots_map f (x ∷ xs) [] l h = absurd (omega (arith, l))
slots_map f (x ∷ xs) (y ∷ ys) l h =
    ap (λ z. z ∷ ys) (some_eq (h 0 (omega arith)))
    ∙ ap (◌∷◌ (f x)) (slots_map f xs ys (omega (arith, l)) (λ i g. h (suc i) (omega arith)))

module _ {C : Type 0} (w : World C) (cfg : Config C) (ctx : C) (es : List Entry) where
  abbrev response : Entry → Option Response
  response e = (handle_entry w cfg ctx e).0

  pub record IsValid (p : Pool) : Type 0 where
    pub sized : length p.slots ≡ length es
    pub stored :
        (i : ℕ)
        → i < p.next
        → In i p.held ⊎ (get_elem? p.slots i ≡ Option.map response (get_elem? es i))

  start-IsValid : IsValid (start (length es))
  start-IsValid = record {
    sized = length-replicate (length es) none;
    stored = λ i h. absurd (omega arith);
  }

  -- The slot of an index, once its entry is answered.
  stored-set :
      (p : Pool) (i : ℕ) (e : Entry) (v : IsValid p)
      → get_elem? es i ≡ some e
      → (j : ℕ) → j < p.next
      → In j (release i p.held)
        ⊎ (get_elem? (set p.slots i (response e)) j ≡ Option.map response (get_elem? es j))
  stored-set p i e v g j h = elim (Bool-cases (j == i)) [
    | inl t ↦ inr (
        subst (λ x. get_elem? (set p.slots i (response e)) x ≡ Option.map response (get_elem? es x))
          (sym ((==_iff j i).0 t))
          (get_elem?-set_self p.slots i (response e) (omega (arith, v.sized, get_elem?-lt es i g))
            ∙ sym (ap (Option.map response) g)))
    | inr t ↦ elim (v.stored j h) [
      | inl m ↦ inl (In-release i j p.held (λ x. cc (t, (==_iff j i).1 x)) m)
      | inr s ↦
          inr (get_elem?-set_ne p.slots i j (response e) (λ x. cc (t, (==_iff j i).1 (sym x))) ∙ s)
    ]
  ]

  below : (n i : ℕ) → i < suc n → n ≢ i → i < n
  below n i g h = ground arith

  taken :
      (n : ℕ) (held : List ℕ) (P : ℕ → Type 0)
      → ((i : ℕ) → i < n → In i held ⊎ P i)
      → (i : ℕ) → i < suc n
      → In i (n ∷ held) ⊎ P i
  taken n held P h i g = elim (Bool-cases (n == i)) [
    | inl t ↦ inl (inl ((==_iff n i).0 t))
    | inr t ↦ elim (h i (below n i g (λ x. cc (t, (==_iff n i).1 x)))) [
      | inl m ↦ inl (inr m)
      | inr q ↦ inr q
    ]
  ]

  Step-IsValid : {p q : Pool} → Step w cfg ctx es p q → IsValid p → IsValid q
  Step-IsValid (takes p room more) v = record {
    sized = v.sized;
    stored =
        taken p.next p.held (λ i. get_elem? p.slots i ≡ Option.map response (get_elem? es i))
          v.stored;
  }
  Step-IsValid (stores p i e m g) v = record {
    sized = length-set p.slots i (response e) ∙ v.sized;
    stored = stored-set p i e v g;
  }

  Run-IsValid : {p q : Pool} → Run w cfg ctx es p q → IsValid p → IsValid q
  Run-IsValid (done p) v = v
  Run-IsValid (next s r) v = Run-IsValid r (Step-IsValid s v)

  present-map : (es' : List Entry) → present (map response es') ≡ (handle_batch_rpc w cfg ctx es').0
  unfolding present handle_batch_rpc
  present-map [] = refl
  present-map (e ∷ es') = ap (cons_some (response e)) (present-map es')

  finished_slot :
      (p : Pool)
      → IsValid p
      → IsFinished w cfg ctx es p
      → (i : ℕ) → i < length es
      → get_elem? p.slots i ≡ Option.map response (get_elem? es i)
  finished_slot p v f i g = elim (v.stored i (subst (λ n. i < n) (sym f.handed_out) g)) [
    | inl m ↦ absurd (subst (In i) f.idle m)
    | inr s ↦ s
  ]

  -- However the workers are scheduled, a batch that is finished has the responses of its entries in
  -- the order of the entries, and none for the notifications.
  pub Run-present :
      {p : Pool}
      → Run w cfg ctx es (start (length es)) p
      → IsFinished w cfg ctx es p
      → present p.slots ≡ (handle_batch_rpc w cfg ctx es).0
  Run-present {p} r f =
      let v = Run-IsValid r start-IsValid in
      ap present (slots_map response es p.slots v.sized (finished_slot p v f)) ∙ present-map es
