-- ===== src/Rpc/Raw/Repair.antt =====
-- A reply that cannot be written.
use golang_jsonrpc.Prelude.{
  ◌≡◌, ◌≢◌, ◌⊎◌, inl, inr, refl, sym, ap, ◌∙◌, List, [], ◌∷◌, Option, none, some, Bytes, map, All,
}
use golang_jsonrpc.Rpc.Types.{RequestId, Response}
use golang_jsonrpc.Rpc.Config.{Config}
use golang_jsonrpc.Rpc.Errors.{safe_internal_response}
use golang_jsonrpc.Rpc.Wire.{
  Codec, marshal_response, marshal_batch, marshal_batch-IsWritable, IsWritable-marshal_batch,
  IsWritable,
}
use golang_jsonrpc.Rpc.Raw.{repair, keep_or_replace, or_internal, batch_text, batch_reply}

module _ (k : Codec) {C : Type 0} (cfg : Config C) where
  safe_internal_response-IsWritable :
      (id : RequestId) → IsWritable k (safe_internal_response cfg id)
  unfolding marshal_response safe_internal_response
  safe_internal_response-IsWritable id = λ e. cc

  -- What is known of a repaired response: it can be written, and it is the response itself, if that
  -- can be written, and else the internal error under the same id.
  abbrev pub IsRepair : Response → Response → Type 0
  IsRepair r r' =
      IsWritable k r'
      × (((marshal_response k r ≢ none) × (r' ≡ r))
          ⊎ ((marshal_response k r ≡ none) × (r' ≡ safe_internal_response cfg r.id)))

  kept-IsRepair :
      (r : Response) (o : Option Bytes)
      → marshal_response k r ≡ o
      → IsRepair r (keep_or_replace k cfg r o)
  unfolding keep_or_replace
  kept-IsRepair r none e = (safe_internal_response-IsWritable r.id, inr (e, refl))
  kept-IsRepair r (some t) e = ((λ n. cc), inl ((λ n. cc), refl))

  -- What takes the place of a response in a batch that cannot be written can be written: it is the
  -- response itself, if that can be written, and else the internal error under the response's id.
  pub repair-IsRepair : (r : Response) → IsRepair r (repair k cfg r)
  unfolding repair
  repair-IsRepair r = kept-IsRepair r (marshal_response k r) refl

  repair-All : (rs : List Response) → All (IsWritable k) (map (repair k cfg) rs)
  repair-All [] = tt
  repair-All (r ∷ rs) = ((repair-IsRepair r).0, repair-All rs)

  repair-IsWritable : (r : Response) → IsWritable k r → repair k cfg r ≡ r
  repair-IsWritable r h = elim ((repair-IsRepair r).1) [ inl p ↦ p.1 | inr p ↦ absurd (h p.0) ]

  repair-id : (rs : List Response) → All (IsWritable k) rs → map (repair k cfg) rs ≡ rs
  repair-id [] h = refl
  repair-id (r ∷ rs) h =
      ap (λ x. x ∷ map (repair k cfg) rs) (repair-IsWritable r h.0) ∙ ap (◌∷◌ r) (repair-id rs h.1)

  some-or_internal : (o : Option Bytes) → o ≢ none → some (or_internal k cfg o) ≡ o
  unfolding or_internal
  some-or_internal none h = absurd (h refl)
  some-or_internal (some t) h = refl

  batch_text-repaired :
      (rs : List Response) (o : Option Bytes)
      → marshal_batch k rs ≡ o
      → (batch_text k cfg rs o).0 ≡ marshal_batch k (map (repair k cfg) rs)
  unfolding batch_text
  batch_text-repaired rs none e = some-or_internal _ (marshal_batch-IsWritable k _ (repair-All rs))
  batch_text-repaired rs (some t) e =
      sym e ∙ ap (marshal_batch k) (sym (repair-id rs (IsWritable-marshal_batch k rs (λ n. cc))))

  -- The reply to a batch that has responses is their array, each repaired; it can always be written,
  -- so that a response with data that has no JSON never costs the others of the batch.
  pub batch_reply-repaired :
      (r : Response) (rs : List Response)
      → ((batch_reply k cfg (r ∷ rs)).0 ≡ marshal_batch k (map (repair k cfg) (r ∷ rs)))
        × (marshal_batch k (map (repair k cfg) (r ∷ rs)) ≢ none)
  unfolding batch_reply
  batch_reply-repaired r rs =
      (batch_text-repaired (r ∷ rs) _ refl, marshal_batch-IsWritable k _ (repair-All (r ∷ rs)))
