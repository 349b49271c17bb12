-- ===== src/Rpc/Entries/Silent.antt =====
-- Batches with no reply.
use golang_jsonrpc.Prelude.{◌≡◌, ◌↔◌, refl, true, List, [], ◌∷◌, Option, none, some, All}
use golang_jsonrpc.Rpc.Types.{is_empty}
use golang_jsonrpc.Rpc.Config.{Config}
use golang_jsonrpc.Rpc.Dispatch.{World, validate_request}
use golang_jsonrpc.Rpc.Dispatch.Replies.{handle_rpc_silent}
use golang_jsonrpc.Rpc.Entries.{
  Entry, decoded, parse_failed, cons_some, handle_entry, handle_batch_rpc,
}

-- A valid request with no id.
abbrev pub IsNotification : Entry → Type 0
IsNotification (decoded r) = (validate_request r ≡ none) × (is_empty r.id ≡ true)
IsNotification parse_failed = ⊥

cons_some_nil :
    {A : Type 0} (o : Option A) (as' : List A) → (cons_some o as' ≡ []) ↔ ((o ≡ none) × (as' ≡ []))
cons_some_nil none as' = ((λ h. (refl, h)), (λ h. h.1))
cons_some_nil (some a) as' = ((λ h. cc), (λ h. cc h.0))

module _ {C : Type 0} (w : World C) (cfg : Config C) (ctx : C) where
  handle_entry_silent : (e : Entry) → ((handle_entry w cfg ctx e).0 ≡ none) ↔ IsNotification e
  unfolding handle_entry
  handle_entry_silent (decoded r) = handle_rpc_silent cfg w ctx r
  handle_entry_silent parse_failed = ((λ h. cc), (λ h. absurd h))

  -- A batch has no response exactly if each of its entries is a valid notification: neither an
  -- invalid request nor an entry that is no request at all goes unanswered.
  pub handle_batch_rpc_silent :
      (es : List Entry) → ((handle_batch_rpc w cfg ctx es).0 ≡ []) ↔ All IsNotification es
  unfolding handle_batch_rpc
  handle_batch_rpc_silent [] = ((λ h. tt), (λ h. refl))
  handle_batch_rpc_silent (e ∷ es) =
      let (here, back) =
        cons_some_nil (handle_entry w cfg ctx e).0 (handle_batch_rpc w cfg ctx es).0 in
      let (one, one') = handle_entry_silent e in
      let (rest, rest') = handle_batch_rpc_silent es in
      ((λ h. (one (here h).0, rest (here h).1)), (λ h. back (one' h.0, rest' h.1)))
