-- ===== src/Http/Client/Places.antt =====
-- The map of awaited ids that `CallBatch` builds, and what stands at the place of each behind the scan.
use mathlib.Core.Option
use golang_jsonrpc.Prelude.{
  ℕ, zero, suc, ◌+◌, ◌≤◌, ◌<◌, ◌≡◌, ◌≢◌, refl, sym, ◌∙◌, subst, List, [], ◌∷◌, Option, none, some,
  Bytes, bytes_Eq, arith, length, length-replicate, take, replicate, get_elem?,
}
use golang_jsonrpc.Prelude.Maps.{Map, insert}
use golang_jsonrpc.Rpc.Types.{RequestId, Response}
use golang_jsonrpc.Caller.{zero_result}
use golang_jsonrpc.Caller.Requests.{Absent, Distinct}
use golang_jsonrpc.Caller.Expected.{
  Unused, Free, Once, insert-Unused, insert-Free, insert-own, insert-Once,
}
use golang_jsonrpc.Http.Client.Entries.{result_of_entry, At, scan-Unused, scan-Once}
use golang_jsonrpc.Http.Client.{expect, scan_entries}

some_id : {k d : Bytes} → some (some k) ≡ some (some d) → k ≡ d
some_id e = cc

at_start : (i j : ℕ) → i ≡ j + 0 → i ≡ j
at_start i j q = omega arith

get_elem?-bound :
    {A : Type 0} {a : A} (xs : List A) (i : ℕ) → get_elem? xs i ≡ some a → i < length xs
get_elem?-bound [] i e = cc
get_elem?-bound (x ∷ xs) zero e = omega arith
get_elem?-bound (x ∷ xs) (suc i) e = omega (arith, get_elem?-bound xs i e)

get_elem?-past : {A : Type 0} (xs : List A) (i : ℕ) → get_elem? xs i ≡ none → length xs ≤ i
get_elem?-past [] i e = omega arith
get_elem?-past (x ∷ xs) zero e = cc
get_elem?-past (x ∷ xs) (suc i) e = omega (arith, get_elem?-past xs i e)

replicate_past : {A : Type 0} (n i : ℕ) (a : A) → n ≤ i → get_elem? (replicate n a) i ≡ none
replicate_past zero i a h = refl
replicate_past (suc n) zero a h = absurd (omega arith)
replicate_past (suc n) (suc i) a h = replicate_past n i a (omega arith)

replicate_within : {A : Type 0} (n i : ℕ) (a : A) → i < n → get_elem? (replicate n a) i ≡ some a
replicate_within zero i a h = absurd (omega arith)
replicate_within (suc n) zero a h = refl
replicate_within (suc n) (suc i) a h = replicate_within n i a (omega arith)

-- No index behind the ids is awaited.
past-Unused :
    (i j : ℕ) (ids : List RequestId) (m : Map Bytes ℕ)
    → j + length ids ≤ i
    → Unused i m
    → Unused i (expect j ids m)
unfolding expect
past-Unused i j [] m l u = u
past-Unused i j (none ∷ ids) m l u = past-Unused i (suc j) ids m (omega arith) u
past-Unused i j (some k ∷ ids) m l u =
    past-Unused i (suc j) ids (insert k j m) (omega arith)
      (insert-Unused i k j m (λ e. omega arith) u)

-- An id whose index is behind is not touched any more.
expect-later :
    (d : Bytes) (i j : ℕ) (ids : List RequestId) (m : Map Bytes ℕ)
    → i < j
    → Absent d ids
    → Once d i m
    → Once d i (expect j ids m)
unfolding expect
expect-later d i j [] m l h o = o
expect-later d i j (none ∷ ids) m l h o = expect-later d i (suc j) ids m (omega arith) h o
expect-later d i j (some k ∷ ids) m l h o =
    expect-later d i (suc j) ids (insert k j m) (omega arith) h.1
      (insert-Once d i k j m h.0 (λ e. omega arith) o)

later-Unused :
    (i j : ℕ) (ids : List RequestId) (m : Map Bytes ℕ)
    → i < j
    → Unused i m
    → Unused i (expect j ids m)
unfolding expect
later-Unused i j [] m l u = u
later-Unused i j (none ∷ ids) m l u = later-Unused i (suc j) ids m (omega arith) u
later-Unused i j (some k ∷ ids) m l u =
    later-Unused i (suc j) ids (insert k j m) (omega arith)
      (insert-Unused i k j m (λ e. omega arith) u)

get_elem?-Absent :
    (d k : Bytes) (p : ℕ) (ids : List RequestId)
    → Absent k ids
    → get_elem? ids p ≡ some (some d)
    → k ≢ d
get_elem?-Absent d k p [] a e = cc
get_elem?-Absent d k zero (none ∷ ids) a e = cc
get_elem?-Absent d k zero (some x ∷ ids) a e = λ h. a.0 (some_id e ∙ sym h)
get_elem?-Absent d k (suc p) (none ∷ ids) a e = get_elem?-Absent d k p ids a e
get_elem?-Absent d k (suc p) (some x ∷ ids) a e = get_elem?-Absent d k p ids a.1 e

-- The id at a place is awaited for that place.
expect-Once :
    (d : Bytes) (i p j : ℕ) (ids : List RequestId) (m : Map Bytes ℕ)
    → i ≡ j + p
    → get_elem? ids p ≡ some (some d)
    → Distinct ids
    → Free d i m
    → Once d i (expect j ids m)
unfolding expect
expect-Once d i p j [] m q e h f = cc
expect-Once d i zero j (none ∷ ids) m q e h f = cc
expect-Once d i zero j (some k ∷ ids) m q e h f =
    expect-later d i (suc j) ids (insert k j m) (omega arith)
      (subst (λ x. Absent x ids) (some_id e) h.0)
      (subst (λ x. Once d i (insert x j m)) (sym (some_id e))
        (subst (λ x. Once d i (insert d x m)) (at_start i j q) (insert-own d i m f)))
expect-Once d i (suc p) j (none ∷ ids) m q e h f =
    expect-Once d i p (suc j) ids m (omega arith) e h f
expect-Once d i (suc p) j (some k ∷ ids) m q e h f =
    expect-Once d i p (suc j) ids (insert k j m) (omega arith) e h.1
      (insert-Free d i k j m (get_elem?-Absent d k p ids h.0 e) (λ x. omega arith) f)

expect-Unused :
    (i p j : ℕ) (ids : List RequestId) (m : Map Bytes ℕ)
    → i ≡ j + p
    → get_elem? ids p ≡ some none
    → Unused i m
    → Unused i (expect j ids m)
unfolding expect
expect-Unused i p j [] m q e u = u
expect-Unused i zero j (none ∷ ids) m q e u = later-Unused i (suc j) ids m (omega arith) u
expect-Unused i zero j (some k ∷ ids) m q e u = cc
expect-Unused i (suc p) j (none ∷ ids) m q e u = expect-Unused i p (suc j) ids m (omega arith) e u
expect-Unused i (suc p) j (some k ∷ ids) m q e u =
    expect-Unused i p (suc j) ids (insert k j m) (omega arith) e
      (insert-Unused i k j m (λ x. omega arith) u)

-- The result at a place is that of the entry at the place.
pub place :
    (ids : List RequestId) (es : List (Option Response)) (i : ℕ) (o : Option RequestId)
    → Distinct ids
    → get_elem? ids i ≡ o
    → At i
        (Option.map (result_of_entry (take (length ids) es)) o)
        (scan_entries (length ids) es (expect 0 ids []) (replicate (length ids) zero_result))
unfolding result_of_entry
place ids es i none h e =
    subst
      (λ v.
        At i v
          (scan_entries (length ids) es (expect 0 ids []) (replicate (length ids) zero_result)))
      (replicate_past (length ids) i zero_result (get_elem?-past ids i e))
      (scan-Unused i (length ids) es (expect 0 ids []) (replicate (length ids) zero_result)
        (past-Unused i 0 ids [] (omega (arith, get_elem?-past ids i e)) tt))
place ids es i (some none) h e =
    subst
      (λ v.
        At i v
          (scan_entries (length ids) es (expect 0 ids []) (replicate (length ids) zero_result)))
      (replicate_within (length ids) i zero_result (get_elem?-bound ids i e))
      (scan-Unused i (length ids) es (expect 0 ids []) (replicate (length ids) zero_result)
        (expect-Unused i i 0 ids [] (omega arith) e tt))
place ids es i (some (some d)) h e =
    scan-Once d i (length ids) es (expect 0 ids []) (replicate (length ids) zero_result)
      (expect-Once d i i 0 ids [] (omega arith) e h tt)
      (omega (arith, length-replicate (length ids) zero_result, get_elem?-bound ids i e))
