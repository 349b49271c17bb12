-- ===== src/Http/Client/Entries.antt =====
-- The scan of `CallBatch` over the response of a server: what stands at one index behind it.
use golang_jsonrpc.Prelude.{
  ℕ, zero, suc, ◌<◌, ◌≡◌, ◌≢◌, inl, inr, refl, sym, ap, ◌∙◌, subst, List, [], ◌∷◌, Option, none,
  some, Bytes, bytes_eq, bytes_Eq, arith, if◌then◌else◌, length, length-set, take, set, get_elem?,
  get_elem?-set_self, get_elem?-set_ne,
}
use golang_jsonrpc.Prelude.Maps.{Map, lookup, delete}
use golang_jsonrpc.Rpc.Types.{RequestId, Response}
use golang_jsonrpc.Caller.{BatchResult, zero_result, batch_result_from_response}
use golang_jsonrpc.Caller.Expected.{
  Unused, Once, Free-Unused, key-cases, lookup-Once, Option-some, lookup-Unused, delete-Unused,
  delete-Once, delete-own,
}
use golang_jsonrpc.Http.Client.{
  id_text, EntryScan, scanned, broken_entry, keep_response, scan_entries, unanswered,
  fill_unanswered,
}

-- What the entries that were read have for an id: the first response with that id.
unfoldable pub result_for : Bytes → List (Option Response) → BatchResult
result_for d [] = unanswered d
result_for d (none ∷ es) = unanswered d
result_for d (some r ∷ es) =
    if bytes_eq (id_text r.id) d then batch_result_from_response r else result_for d es

-- A notification has the zero result.
unfoldable pub result_of_entry : List (Option Response) → RequestId → BatchResult
result_of_entry es none = zero_result
result_of_entry es (some d) = result_for d es

pub fill-Unused :
    (i : ℕ) (m : Map Bytes ℕ) (rs : List BatchResult)
    → Unused i m
    → get_elem? (fill_unanswered m rs) i ≡ get_elem? rs i
unfolding fill_unanswered
fill-Unused i [] rs h = refl
fill-Unused i ((k, v) ∷ m) rs h =
    fill-Unused i m (set rs v (unanswered k)) h.1 ∙ get_elem?-set_ne rs v i (unanswered k) h.0

fill-Once :
    (d : Bytes) (i : ℕ) (m : Map Bytes ℕ) (rs : List BatchResult)
    → Once d i m
    → i < length rs
    → get_elem? (fill_unanswered m rs) i ≡ some (unanswered d)
unfolding fill_unanswered
fill-Once d i [] rs h l = absurd h
fill-Once d i ((k, v) ∷ m) rs (inl (a, b, f)) l =
    fill-Unused i m (set rs v (unanswered k)) (Free-Unused d i m f)
    ∙ ap (λ x. get_elem? (set rs x (unanswered k)) i) b
    ∙ get_elem?-set_self rs i (unanswered k) l
    ∙ ap (λ x. some (unanswered x)) a
fill-Once d i ((k, v) ∷ m) rs (inr (a, b, h)) l =
    fill-Once d i m (set rs v (unanswered k)) h (omega (arith, length-set rs v (unanswered k)))

-- What stands at an index behind the scan.
abbrev pub At : ℕ → Option BatchResult → EntryScan → Type 0
At i v broken_entry = Unit
At i v (scanned m rs) = get_elem? (fill_unanswered m rs) i ≡ v

-- A result whose value is not awaited stays.
kept-Unused :
    (i n : ℕ) (r : Response) (es : List (Option Response)) (o : Option ℕ) (m : Map Bytes ℕ)
    (rs : List BatchResult)
    → ((m : Map Bytes ℕ) (rs : List BatchResult)
        → Unused i m
        → At i (get_elem? rs i) (scan_entries n es m rs))
    → lookup (id_text r.id) m ≡ o
    → Unused i m
    → At i
        (get_elem? rs i)
        (scan_entries n es (keep_response r o m rs).0 (keep_response r o m rs).1)
unfolding keep_response
kept-Unused i n r es none m rs ih e h = ih m rs h
kept-Unused i n r es (some j) m rs ih e h =
    subst
      (λ v.
        At i v
          (scan_entries n es (delete (id_text r.id) m) (set rs j (batch_result_from_response r))))
      (get_elem?-set_ne rs j i (batch_result_from_response r)
        (lookup-Unused (id_text r.id) i j m h e))
      (ih (delete (id_text r.id) m) (set rs j (batch_result_from_response r))
        (delete-Unused i (id_text r.id) m h))

pub scan-Unused :
    (i n : ℕ) (es : List (Option Response)) (m : Map Bytes ℕ) (rs : List BatchResult)
    → Unused i m
    → At i (get_elem? rs i) (scan_entries n es m rs)
unfolding scan_entries
scan-Unused i n [] m rs h = fill-Unused i m rs h
scan-Unused i n (e ∷ es) [] rs h = fill-Unused i [] rs h
scan-Unused i zero (e ∷ es) (a ∷ m) rs h = fill-Unused i (a ∷ m) rs h
scan-Unused i (suc n) (none ∷ es) (a ∷ m) rs h = tt
scan-Unused i (suc n) (some r ∷ es) (a ∷ m) rs h =
    kept-Unused i n r es (lookup (id_text r.id) (a ∷ m)) (a ∷ m) rs (scan-Unused i n es) refl h

module _ (d : Bytes) (i : ℕ) where
  -- The scan puts the first response with the id at the index.
  abbrev pub Found : ℕ → List (Option Response) → Map Bytes ℕ → List BatchResult → Type 0
  Found n es m rs = At i (some (result_for d (take n es))) (scan_entries n es m rs)

  kept-Once :
      (n : ℕ) (r : Response) (es : List (Option Response)) (o : Option ℕ) (m : Map Bytes ℕ)
      (rs : List BatchResult)
      → ((m : Map Bytes ℕ) (rs : List BatchResult) → Once d i m → i < length rs → Found n es m rs)
      → lookup (id_text r.id) m ≡ o
      → id_text r.id ≢ d
      → Once d i m
      → i < length rs
      → Found n es (keep_response r o m rs).0 (keep_response r o m rs).1
  unfolding keep_response
  kept-Once n r es none m rs ih e c h l = ih m rs h l
  kept-Once n r es (some j) m rs ih e c h l =
      ih (delete (id_text r.id) m) (set rs j (batch_result_from_response r))
        (delete-Once d i (id_text r.id) m h c)
        (omega (arith, l, length-set rs j (batch_result_from_response r)))

  -- The response itself.
  own-Once :
      (n : ℕ) (r : Response) (es : List (Option Response)) (o : Option ℕ) (m : Map Bytes ℕ)
      (rs : List BatchResult)
      → o ≡ some i
      → id_text r.id ≡ d
      → Once d i m
      → i < length rs
      → At i
          (some (batch_result_from_response r))
          (scan_entries n es (keep_response r o m rs).0 (keep_response r o m rs).1)
  unfolding keep_response
  own-Once n r es none m rs e c h l = cc
  own-Once n r es (some j) m rs e c h l =
      subst
        (λ v.
          At i v
            (scan_entries n es (delete (id_text r.id) m) (set rs j (batch_result_from_response r))))
        (ap (λ x. get_elem? (set rs x (batch_result_from_response r)) i) (Option-some e)
          ∙ get_elem?-set_self rs i (batch_result_from_response r) l)
        (scan-Unused i n es (delete (id_text r.id) m) (set rs j (batch_result_from_response r))
          (subst (λ x. Unused i (delete x m)) (sym c) (delete-own d i m h)))

  pub scan-Once :
      (n : ℕ) (es : List (Option Response)) (m : Map Bytes ℕ) (rs : List BatchResult)
      → Once d i m
      → i < length rs
      → Found n es m rs
  unfolding scan_entries result_for
  scan-Once zero [] m rs h l = fill-Once d i m rs h l
  scan-Once (suc n) [] m rs h l = fill-Once d i m rs h l
  scan-Once n (e ∷ es) [] rs h l = absurd h
  scan-Once zero (e ∷ es) (a ∷ m) rs h l = fill-Once d i (a ∷ m) rs h l
  scan-Once (suc n) (none ∷ es) (a ∷ m) rs h l = tt
  scan-Once (suc n) (some r ∷ es) (a ∷ m) rs h l = elim (key-cases (id_text r.id) d) [
    | inl (e, t) ↦ rw t (
        own-Once n r es (lookup (id_text r.id) (a ∷ m)) (a ∷ m) rs
          (ap (λ x. lookup x (a ∷ m)) e ∙ lookup-Once d i (a ∷ m) h) e h l)
    | inr (e, t) ↦
        rw t
          (kept-Once n r es (lookup (id_text r.id) (a ∷ m)) (a ∷ m) rs (scan-Once n es) refl e h l)
  ]
