-- ===== src/Caller/Requests.antt =====
-- The requests of a batch: as many as the specs, with ids that are distinct if the draws are.
use golang_jsonrpc.Prelude.{
  ℕ, suc, ◌+◌, ◌^◌, pos, ◌≤◌, ◌<◌, ◌≡◌, ◌≢◌, inl, inr, refl, sym, ap, ◌∙◌, Bool-cases, List, [],
  ◌∷◌, Option, none, some, Bytes, arith, length,
}
use golang_jsonrpc.Text.Decimal.{print, parse_int, parse_int-print}
use golang_jsonrpc.Rpc.Types.{RequestId, RawMessage, Request, version_2_0}
use golang_jsonrpc.Rpc.Wire.{◌>>=◌}
use golang_jsonrpc.Caller.{Spec, marshal_params, id_of, drawn, batch_requests, ids_of}

-- The id is none of these.
abbrev pub Absent : Bytes → List RequestId → Type 0
Absent d [] = Unit
Absent d (none ∷ ids) = Absent d ids
Absent d (some k ∷ ids) = (k ≢ d) × Absent d ids

abbrev pub Distinct : List RequestId → Type 0
Distinct [] = Unit
Distinct (none ∷ ids) = Distinct ids
Distinct (some d ∷ ids) = Absent d ids × Distinct ids

-- The ids of the specs, whatever their params.
unfoldable pub spec_ids : (ℕ → Bytes) → ℕ → List Spec → List RequestId
spec_ids draw j [] = []
spec_ids draw j (s ∷ specs) = id_of draw j s ∷ spec_ids draw (drawn j s) specs

ids_cons :
    (draw : ℕ → Bytes) (j : ℕ) (s : Spec) (specs : List Spec) (raw : Option RawMessage)
    (o : Option (List Request)) (reqs : List Request)
    → ((rs : List Request) → o ≡ some rs → ids_of rs ≡ spec_ids draw (drawn j s) specs)
    → (raw >>= λ p. o >>= λ rest. some (
        record { version = version_2_0; method = s.method; params = p; id = id_of draw j s }
        ∷ rest))
      ≡ some reqs
    → ids_of reqs ≡ spec_ids draw j (s ∷ specs)
unfolding spec_ids
ids_cons draw j s specs none o reqs ih e = cc
ids_cons draw j s specs (some p) none reqs ih e = cc
ids_cons draw j s specs (some p) (some rest) reqs ih e =
    sym (ap ids_of (unsome e)) ∙ ap (λ l. id_of draw j s ∷ l) (ih rest refl)
  where
    unsome : {A : Type 0} {a b : A} → some a ≡ some b → a ≡ b
    unsome e = cc

pub ids_of-batch_requests :
    (draw : ℕ → Bytes) (j : ℕ) (specs : List Spec) (reqs : List Request)
    → batch_requests draw j specs ≡ some reqs
    → ids_of reqs ≡ spec_ids draw j specs
unfolding batch_requests spec_ids
ids_of-batch_requests draw j [] [] e = refl
ids_of-batch_requests draw j [] (r ∷ reqs) e = cc
ids_of-batch_requests draw j (s ∷ specs) reqs e =
    ids_cons draw j s specs (marshal_params s.params) (batch_requests draw (drawn j s) specs) reqs
      (ids_of-batch_requests draw (drawn j s) specs) e

pub length-spec_ids :
    (draw : ℕ → Bytes) (j : ℕ) (specs : List Spec) → length (spec_ids draw j specs) ≡ length specs
unfolding spec_ids
length-spec_ids draw j [] = refl
length-spec_ids draw j (s ∷ specs) = ap suc (length-spec_ids draw (drawn j s) specs)

-- No two of the first `n` draws give one id.
abbrev pub Fresh : ℕ → (ℕ → Bytes) → Type 0
Fresh n draw = (i j : ℕ) → i < n → j < n → draw i ≡ draw j → i ≡ j

pos_same : {a b : ℕ} → some (pos a) ≡ some (pos b) → a ≡ b
pos_same e = cc

-- A counter that is drawn from by others too: its values grow from draw to draw, and are printed.
pub counter-Fresh :
    (n : ℕ) (count : ℕ → ℕ)
    → ((i : ℕ) → i < n → count i < 2 ^ 63)
    → ((i j : ℕ) → i < n → j < n → count i ≡ count j → i ≡ j)
    → Fresh n (λ i. print (count i))
counter-Fresh n count small grows i j a b e = grows i j a b (
    pos_same (
      sym (parse_int-print (count i) (small i a))
      ∙ ap parse_int e
      ∙ parse_int-print (count j) (small j b)))

module _ (n : ℕ) (draw : ℕ → Bytes) (fresh : Fresh n draw) where
  spec_ids-Absent :
      (i j : ℕ) (specs : List Spec)
      → i < j
      → j + length specs ≤ n
      → Absent (draw i) (spec_ids draw j specs)
  unfolding spec_ids id_of drawn
  spec_ids-Absent i j [] l b = tt
  spec_ids-Absent i j (s ∷ specs) l b = elim (Bool-cases s.is_notification) [
    | inl e ↦ rw e (spec_ids-Absent i j specs l (omega arith))
    | inr e ↦ rw e (
      (λ h. omega (arith, l, fresh j i (omega arith) (omega arith) h)),
      spec_ids-Absent i (suc j) specs (omega arith) (omega arith),
    )
  ]

  pub spec_ids-Distinct :
      (j : ℕ) (specs : List Spec) → j + length specs ≤ n → Distinct (spec_ids draw j specs)
  unfolding spec_ids id_of drawn
  spec_ids-Distinct j [] b = tt
  spec_ids-Distinct j (s ∷ specs) b = elim (Bool-cases s.is_notification) [
    | inl e ↦ rw e (spec_ids-Distinct j specs (omega arith))
    | inr e ↦ rw e (
      spec_ids-Absent j (suc j) specs (omega arith) (omega arith),
      spec_ids-Distinct (suc j) specs (omega arith),
    )
  ]
