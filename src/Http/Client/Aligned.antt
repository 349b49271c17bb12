-- ===== src/Http/Client/Aligned.antt =====
-- `CallBatch`: the results stand where their specs stand.
use mathlib.Core.Option
use golang_jsonrpc.Prelude.{
  ℕ, zero, suc, ◌≡◌, ◌≢◌, refl, sym, ap, ◌∙◌, subst, Bool, true, false, List, [], ◌∷◌, map, Option,
  none, some, Bytes, bytes_Eq, arith, if◌then◌else◌, length, take, replicate, get_elem?,
}
use golang_jsonrpc.Prelude.Maps.{Map}
use golang_jsonrpc.Rpc.Types.{RequestId, Request, Response}
use golang_jsonrpc.Rpc.Wire.{Codec}
use golang_jsonrpc.Caller.{Spec, BatchResult, zero_result, ids_of, batch_requests, marshal_requests}
use golang_jsonrpc.Caller.Requests.{
  Distinct, Fresh, spec_ids, ids_of-batch_requests, spec_ids-Distinct,
}
use golang_jsonrpc.Http.Client.Places.{place}
use golang_jsonrpc.Http.Client.Entries.{result_of_entry, At}
use golang_jsonrpc.Http.Client.{
  Result, expect, EntryScan, scanned, broken_entry, scan_entries, fill_unanswered, finish_scan,
  Reader, Stream, no_token, not_bracket, entries, read_array, read_batch, ok, err, batch_body,
  post_batch, call_batch, Exchange, HttpClient, post_raw, over_batch_limit, CallError,
  batch_too_large,
}

some_same : {A : Type 0} {a b : A} → some a ≡ some b → a ≡ b
some_same e = cc

none_differs : {A : Type 0} {a : A} → none ≢ some a
none_differs e = cc

list_ext : {A : Type 0} (xs ys : List A) → ((i : ℕ) → get_elem? xs i ≡ get_elem? ys i) → xs ≡ ys
list_ext [] [] h = refl
list_ext [] (y ∷ ys) h = absurd (none_differs (h 0))
list_ext (x ∷ xs) [] h = absurd (none_differs (sym (h 0)))
list_ext (x ∷ xs) (y ∷ ys) h =
    ap (λ a. a ∷ xs) (some_same (h 0)) ∙ ap (◌∷◌ y) (list_ext xs ys (λ i. h (suc i)))

get_elem?-map :
    {A B : Type 0} (f : A → B) (xs : List A) (i : ℕ)
    → get_elem? (map f xs) i ≡ Option.map f (get_elem? xs i)
get_elem?-map f [] i = refl
get_elem?-map f (x ∷ xs) zero = refl
get_elem?-map f (x ∷ xs) (suc i) = get_elem?-map f xs i

ok_same : {a b : List BatchResult} → ok a ≡ ok b → a ≡ b
ok_same e = cc

finish-At :
    (s : EntryScan) (results : List BatchResult) (i : ℕ) (v : Option BatchResult)
    → finish_scan s ≡ ok results
    → At i v s
    → get_elem? results i ≡ v
unfolding finish_scan
finish-At broken_entry results i v e a = cc
finish-At (scanned m rs) results i v e a = ap (λ l. get_elem? l i) (sym (ok_same e)) ∙ a

-- The entries in the body of a response, if it is an array.
abbrev pub entries_in : Stream → List (Option Response)
entries_in no_token = []
entries_in not_bracket = []
entries_in (entries es) = es

read_array-entries :
    (t : Stream) (n : ℕ) (m : Map Bytes ℕ) (rs results : List BatchResult)
    → read_array t n m rs ≡ ok results
    → finish_scan (scan_entries n (entries_in t) m rs) ≡ ok results
unfolding read_array
read_array-entries no_token n m rs results e = cc
read_array-entries not_bracket n m rs results e = cc
read_array-entries (entries es) n m rs results e = e

-- With nothing awaited, the entries do not matter.
scan_nothing :
    (n : ℕ) (es : List (Option Response)) (rs : List BatchResult)
    → finish_scan (scan_entries n es [] rs) ≡ ok rs
unfolding finish_scan scan_entries fill_unanswered
scan_nothing n [] rs = refl
scan_nothing n (e ∷ es) rs = refl

read_batch-entries :
    (rd : Reader) (ids : List RequestId) (m : Map Bytes ℕ) (rs : List BatchResult) (body : Bytes)
    (results : List BatchResult)
    → read_batch rd ids m rs body ≡ ok results
    → finish_scan (scan_entries (length ids) (entries_in (rd.open_array body)) m rs) ≡ ok results
unfolding read_batch
read_batch-entries rd ids [] rs body results e = scan_nothing (length ids) _ rs ∙ e
read_batch-entries rd ids (a ∷ m) rs [] results e = cc
read_batch-entries rd ids (a ∷ m) rs (b ∷ body) results e =
    read_array-entries (rd.open_array (b ∷ body)) (length ids) (a ∷ m) rs results e

-- The results of a batch, for the ids that were sent and the body that came back.
abbrev pub aligned_results : Reader → List RequestId → Bytes → List BatchResult
aligned_results rd ids body =
    map (result_of_entry (take (length ids) (entries_in (rd.open_array body)))) ids

batch_body-aligned :
    (rd : Reader) (ids : List RequestId) (body : Bytes) (results : List BatchResult)
    → Distinct ids
    → batch_body rd ids (ok body) ≡ ok results
    → results ≡ aligned_results rd ids body
unfolding batch_body
batch_body-aligned rd ids body results d e = list_ext results (aligned_results rd ids body) (λ i.
    finish-At (scan_entries (length ids) es (expect 0 ids []) (replicate (length ids) zero_result))
      results i (Option.map (result_of_entry (take (length ids) es)) (get_elem? ids i))
      (read_batch-entries rd ids (expect 0 ids []) (replicate (length ids) zero_result) body results
        e)
      (place ids es i (get_elem? ids i) d refl)
    ∙ sym (get_elem?-map (result_of_entry (take (length ids) es)) ids i))
  where
    es : List (Option Response)
    es = entries_in (rd.open_array body)

module _ (k : Codec) (rd : Reader) (server : Bytes → Exchange) (c : HttpClient) where
  post_batch-aligned :
      (reqs : List Request) (body : Bytes) (results : List BatchResult)
      → Distinct (ids_of reqs)
      → post_raw c (server (marshal_requests k reqs)) ≡ ok body
      → post_batch k rd server c (some reqs) ≡ ok results
      → results ≡ aligned_results rd (ids_of reqs) body
  unfolding post_batch
  post_batch-aligned reqs body results d p e =
      batch_body-aligned rd (ids_of reqs) body results d
        (ap (batch_body rd (ids_of reqs)) (sym p) ∙ e)

  limit_passed :
      (b : Bool) (e : CallError) (r : Result (List BatchResult)) (results : List BatchResult)
      → (if b then err e else r) ≡ ok results
      → r ≡ ok results
  limit_passed true e r results h = cc
  limit_passed false e r results h = h

  -- If the ids that are drawn are distinct: whenever `CallBatch` returns results for specs whose
  -- requests the server has answered with a body, there is one result for each spec, in the order
  -- of the specs: the zero result for a notification, and for a call what the first response with
  -- its id holds, among as many entries of the body as there are specs, or an error if there is none,
  -- whatever else the server has sent.
  pub call_batch-aligned :
      (draw : ℕ → Bytes) (specs : List Spec) (reqs : List Request) (body : Bytes)
      (results : List BatchResult)
      → Fresh (length specs) draw
      → batch_requests draw 0 specs ≡ some reqs
      → post_raw c (server (marshal_requests k reqs)) ≡ ok body
      → call_batch k rd server c draw specs ≡ ok results
      → results ≡ aligned_results rd (spec_ids draw 0 specs) body
  unfolding call_batch spec_ids
  call_batch-aligned draw [] reqs body results f q p e = sym (ok_same e)
  call_batch-aligned draw (s ∷ specs) reqs body results f q p e =
      post_batch-aligned reqs body results
        (subst Distinct (sym (ids_of-batch_requests draw 0 (s ∷ specs) reqs q))
          (spec_ids-Distinct (length (s ∷ specs)) draw f 0 (s ∷ specs) (omega arith)))
        p
        (ap (post_batch k rd server c) (sym q)
          ∙ limit_passed (over_batch_limit c.max_batch_size (length (s ∷ specs))) batch_too_large _
              results e)
      ∙ ap (λ ids. aligned_results rd ids body) (ids_of-batch_requests draw 0 (s ∷ specs) reqs q)
