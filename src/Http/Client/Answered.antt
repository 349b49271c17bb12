-- ===== src/Http/Client/Answered.antt =====
-- `CallBatch` and `Call` return what a server that answers has sent.
use golang_jsonrpc.Prelude.{
  ℕ, zero, suc, ◌≡◌, ◌≢◌, refl, ap, ◌∙◌, false, List, [], ◌∷◌, Option, none, some, Bytes, bytes_Eq,
  length, All, replicate,
}
use golang_jsonrpc.Prelude.Maps.{Map}
use golang_jsonrpc.Rpc.Types.{RequestId, Request, Response}
use golang_jsonrpc.Rpc.Wire.{Codec}
use golang_jsonrpc.Caller.{Spec, BatchResult, zero_result, ids_of, batch_requests, marshal_requests}
use golang_jsonrpc.Caller.Requests.{Fresh, spec_ids}
use golang_jsonrpc.Http.Client.Aligned.{aligned_results, call_batch-aligned}
use golang_jsonrpc.Http.Client.{
  Result, expect, EntryScan, scanned, broken_entry, scan_entries, fill_unanswered, finish_scan,
  Reader, entries, read_array, read_batch, ok, batch_body, post_batch, call_batch, Exchange,
  HttpClient, post_raw, over_batch_limit,
}

-- The entry was decoded.
abbrev pub IsResponse : Option Response → Type 0
IsResponse none = ⊥
IsResponse (some r) = Unit

scan_total :
    (n : ℕ) (es : List (Option Response)) (m : Map Bytes ℕ) (rs : List BatchResult)
    → All IsResponse es
    → scan_entries n es m rs ≢ broken_entry
unfolding scan_entries
scan_total n [] m rs h = λ x. cc
scan_total n (e ∷ es) [] rs h = λ x. cc
scan_total zero (e ∷ es) (a ∷ m) rs h = λ x. cc
scan_total (suc n) (none ∷ es) (a ∷ m) rs h = absurd h.0
scan_total (suc n) (some r ∷ es) (a ∷ m) rs h = scan_total n es _ _ h.1

-- A result, not an error.
abbrev Returns : {A : Type 0} → Result A → Type 0
Returns {A} r = (a : A) × (r ≡ ok a)

finish-Returns : (s : EntryScan) → s ≢ broken_entry → Returns (finish_scan s)
unfolding finish_scan
finish-Returns (scanned m rs) h = (fill_unanswered m rs, refl)
finish-Returns broken_entry h = absurd (h refl)

read_batch-Returns :
    (rd : Reader) (ids : List RequestId) (m : Map Bytes ℕ) (rs : List BatchResult) (b : ℕ)
    (body : Bytes) (es : List (Option Response))
    → rd.open_array (b ∷ body) ≡ entries es
    → All IsResponse es
    → Returns (read_batch rd ids m rs (b ∷ body))
unfolding read_batch read_array
read_batch-Returns rd ids [] rs b body es e h = (rs, refl)
read_batch-Returns rd ids (a ∷ m) rs b body es e h = rw e (
    finish-Returns (scan_entries (length ids) es (a ∷ m) rs)
      (scan_total (length ids) es (a ∷ m) rs h))

module _ (k : Codec) (rd : Reader) (server : Bytes → Exchange) (c : HttpClient) where
  call_batch_answered :
      (draw : ℕ → Bytes) (s : Spec) (specs : List Spec) (reqs : List Request) (b : ℕ) (body : Bytes)
      (es : List (Option Response))
      → over_batch_limit c.max_batch_size (length (s ∷ specs)) ≡ false
      → batch_requests draw 0 (s ∷ specs) ≡ some reqs
      → post_raw c (server (marshal_requests k reqs)) ≡ ok (b ∷ body)
      → rd.open_array (b ∷ body) ≡ entries es
      → All IsResponse es
      → Returns (call_batch k rd server c draw (s ∷ specs))
  unfolding call_batch post_batch batch_body
  call_batch_answered draw s specs reqs b body es l q p e h =
      rw (l, q, p)
        (read_batch-Returns rd (ids_of reqs) (expect 0 (ids_of reqs) [])
          (replicate (length (ids_of reqs)) zero_result) b body es e h)

  -- If the ids that are drawn are distinct: for a batch within the client's limit whose requests can be
  -- encoded, which the server answers with an array of responses, `CallBatch` returns one result for
  -- each spec, in the order of the specs: the zero result for a notification, and for a call what
  -- the first response with its id holds, among as many entries as there are specs, or an error
  -- if there is none.
  pub call_batch-returns :
      (draw : ℕ → Bytes) (s : Spec) (specs : List Spec) (reqs : List Request) (b : ℕ) (body : Bytes)
      (es : List (Option Response))
      → Fresh (length (s ∷ specs)) draw
      → over_batch_limit c.max_batch_size (length (s ∷ specs)) ≡ false
      → batch_requests draw 0 (s ∷ specs) ≡ some reqs
      → post_raw c (server (marshal_requests k reqs)) ≡ ok (b ∷ body)
      → rd.open_array (b ∷ body) ≡ entries es
      → All IsResponse es
      → call_batch k rd server c draw (s ∷ specs)
        ≡ ok (aligned_results rd (spec_ids draw 0 (s ∷ specs)) (b ∷ body))
  call_batch-returns draw s specs reqs b body es f l q p e h =
      finish (call_batch_answered draw s specs reqs b body es l q p e h)
    where
      finish :
          Returns (call_batch k rd server c draw (s ∷ specs))
          → call_batch k rd server c draw (s ∷ specs)
            ≡ ok (aligned_results rd (spec_ids draw 0 (s ∷ specs)) (b ∷ body))
      finish (results, r) =
          r
          ∙ ap ok
              (call_batch-aligned k rd server c draw (s ∷ specs) reqs (b ∷ body) results f q p r)
