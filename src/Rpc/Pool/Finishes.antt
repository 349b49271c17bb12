-- ===== src/Rpc/Pool/Finishes.antt =====
-- The worker pool of a batch is never stuck, whatever the number of workers that is configured.
use golang_jsonrpc.Prelude.{
  ℕ, zero, suc, ◌+◌, ◌*◌, ◌∙◌, ◌≤◌, ◌<◌, ◌≡◌, ◌⊎◌, inl, inr, refl, ap, sym, subst, Bool-cases, List,
  [], ◌∷◌, some, ℤ, pos, negsuc, ◌==◌, ltb, ltb→lt, length, get_elem?, set, All, arith,
}
use golang_jsonrpc.Rpc.Config.{Config}
use golang_jsonrpc.Rpc.Dispatch.{World}
use golang_jsonrpc.Rpc.Entries.{Entry, handle_entry, handle_batch_rpc}
use golang_jsonrpc.Rpc.Pool.{
  Pool, In, workers, release, start, present, Step, takes, stores, Run, done, next, IsFinished,
}
use golang_jsonrpc.Rpc.Pool.Order.{Run-present}

List-cases : (js : List ℕ) → (js ≡ []) ⊎ ((i : ℕ) × (rest : List ℕ) × (js ≡ i ∷ rest))
List-cases [] = inl refl
List-cases (i ∷ rest) = inr (i, rest, refl)

workers_positive : (c : ℤ) (n : ℕ) → 0 < n → 0 < workers c n
unfolding workers
workers_positive (pos zero) n h = h
workers_positive (pos (suc c)) n h = ground (arith, h)
workers_positive (negsuc c) n h = h

get_elem?-some :
    {A : Type 0} (xs : List A) (i : ℕ) → i < length xs → (a : A) × (get_elem? xs i ≡ some a)
get_elem?-some [] i h = absurd (omega arith)
get_elem?-some (x ∷ xs) zero h = (x, refl)
get_elem?-some (x ∷ xs) (suc i) h = get_elem?-some xs i (omega arith)

release_head : (i : ℕ) (js : List ℕ) → release i (i ∷ js) ≡ js
unfolding release
release_head i js = ground arith

All-release : (P : ℕ → Type 0) (i : ℕ) (js : List ℕ) → All P js → All P (release i js)
unfolding release
All-release P i [] h = tt
All-release P i (j ∷ js) h = elim (Bool-cases (j == i)) [
  | inl e ↦ rw e h.1
  | inr e ↦ rw e (h.0, All-release P i js h.1)
]

module _ {C : Type 0} (w : World C) (cfg : Config C) (ctx : C) (es : List Entry) where
  -- No index is handed out that is not one of an entry.
  record InRange (p : Pool) : Type 0 where
    counted : p.next ≤ length es
    holds : All (λ i. i < length es) p.held

  Step-InRange : {p q : Pool} → Step w cfg ctx es p q → InRange p → InRange q
  Step-InRange (takes p room more) v = record {
    counted = omega (arith, more);
    holds = (more, v.holds);
  }
  Step-InRange (stores p i e m g) v = record {
    counted = v.counted;
    holds = All-release (λ i. i < length es) i p.held v.holds;
  }

  Run-InRange : {p q : Pool} → Run w cfg ctx es p q → InRange p → InRange q
  Run-InRange (done p) v = v
  Run-InRange (next s r) v = Run-InRange r (Step-InRange s v)

  Run-append : {p q r : Pool} → Run w cfg ctx es p q → Run w cfg ctx es q r → Run w cfg ctx es p r
  Run-append (done p) k = k
  Run-append (next s r) k = next s (Run-append r k)

  abbrev Finishes : Pool → Type 0
  Finishes p = (q : Pool) × Run w cfg ctx es p q × IsFinished w cfg ctx es q

  -- One step on the way to the end.
  after-Step : {p q : Pool} → Step w cfg ctx es p q → Finishes q → Finishes p
  after-Step s (q, r, f) = (q, next s r, f)

  -- The pool in which the index that is held first has been answered.
  abbrev after_store : Pool → ℕ → Entry → Pool
  after_store p i e = record p {
    held = release i p.held;
    slots = set p.slots i (handle_entry w cfg ctx e).0;
  }

  abbrev after_take : Pool → Pool
  after_take p = record p { next = suc p.next; held = p.next ∷ p.held }

  length-after_store :
      (p : Pool) (i : ℕ) (js : List ℕ) → p.held ≡ i ∷ js → length (release i p.held) ≡ length js
  length-after_store p i js h = ap length (ap (release i) h ∙ release_head i js)

  held-entry :
      (p : Pool) (i : ℕ) (js : List ℕ)
      → InRange p
      → p.held ≡ i ∷ js
      → (e : Entry) × (get_elem? es i ≡ some e)
  held-entry p i js v h = get_elem?-some es i (subst (All (λ j. j < length es)) h v.holds).0

  take-Step : (p : Pool) → p.held ≡ [] → p.next < length es → Step w cfg ctx es p (after_take p)
  take-Step p h more =
      takes p
        (omega (
          arith,
          ap length h,
          workers_positive cfg.batch_concurrency (length es) (omega (arith, more)),
        ))
        more

  store-Step :
      (p : Pool) (i : ℕ) (js : List ℕ) (e : Entry)
      → p.held ≡ i ∷ js
      → get_elem? es i ≡ some e
      → Step w cfg ctx es p (after_store p i e)
  store-Step p i js e h g = stores p i e (subst (In i) (sym h) (inl refl)) g

  at_the_end : (p : Pool) → p.held ≡ [] → InRange p → length es ≤ p.next → Finishes p
  at_the_end p h v m = (p, done p, record { handed_out = omega (arith, v.counted, m); idle = h })

  -- By the number of indexes still to be handed out and to be stored.
  finishes :
      (fuel : ℕ) (p : Pool)
      → InRange p
      → 2 * length es + length p.held ≤ fuel + 2 * p.next
      → Finishes p
  finishes zero p v h = elim (List-cases p.held) [
    | inl e ↦ at_the_end p e v (omega (arith, h))
    | inr (i, js, e) ↦ absurd (omega (arith, h, v.counted, ap length e))
  ]
  finishes (suc fuel) p v h = elim (List-cases p.held) [
    | inl e ↦ elim (Bool-cases (ltb p.next (length es))) [
      | inl t ↦
          let s = take-Step p e (ltb→lt _ _ t) in
          after-Step s (finishes fuel (after_take p) (Step-InRange s v) (omega (arith, h)))
      | inr t ↦ at_the_end p e v (ground (arith, t))
    ]
    | inr (i, js, e) ↦
        let (a, g) = held-entry p i js v e in
        let s = store-Step p i js a e g in
        after-Step s (
          finishes fuel (after_store p i a) (Step-InRange s v)
            (omega (arith, h, length-after_store p i js e, ap length e)))
  ]

  -- From every state that the workers of a batch reach, they can go on until the batch is finished,
  -- whatever concurrency is configured, and the responses are then those of the entries in the order
  -- of the entries, and none for the notifications.
  pub Run-finishes :
      {p : Pool}
      → Run w cfg ctx es (start (length es)) p
      → (q : Pool) × Run w cfg ctx es p q
        × IsFinished w cfg ctx es q
        × (present q.slots ≡ (handle_batch_rpc w cfg ctx es).0)
  Run-finishes {p} r =
      let (q, k, f) =
        finishes (2 * length es + length p.held) p
          (Run-InRange r (record { counted = omega arith; holds = tt })) (omega arith) in
      (q, k, f, Run-present w cfg ctx es (Run-append r k) f)
