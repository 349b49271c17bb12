-- ===== src/Rpc/Entries.antt =====
-- handle.go: `handleBatchRPC`, entry by entry, with the responses in the order of the entries. The
-- pool of workers that the entries are spread over is Rpc/Pool.
pub mod Silent
use golang_jsonrpc.Prelude.{
  ℕ, ◌≡◌, refl, Bool, true, false, List, [], ◌∷◌, ◌++◌, Option, none, some, Bytes, codes,
}
use golang_jsonrpc.Rpc.Types.{
  Request, Response, message, invalid_request_error_code, M, pure, ◌>>=◌, ◌>>◌,
}
use golang_jsonrpc.Rpc.Config.{Config}
use golang_jsonrpc.Rpc.Errors.{error_response}
use golang_jsonrpc.Rpc.Dispatch.{World, observe, handle_rpc}

-- An entry of a batch, as it was decoded.
pub data Entry : Type 0 where
  decoded : Request → Entry
  parse_failed : Entry

abbrev zero_request : Request
zero_request = record { version = []; method = []; params = none; id = none }

-- The responses that are there; a notification has none.
abbrev pub cons_some {ℓ} : {A : Type ℓ} → Option A → List A → List A
cons_some none as' = as'
cons_some (some a) as' = a ∷ as'

module _ {C : Type 0} (w : World C) (cfg : Config C) (ctx : C) where
  unfoldable pub handle_entry : Entry → M (Option Response)
  handle_entry (decoded r) = handle_rpc w cfg ctx r
  handle_entry parse_failed = do
    resp ←
        error_response cfg (some (message (codes "batch entry is not a valid request object")))
          invalid_request_error_code none
    observe cfg ctx resp [] false (w.elapsed ctx zero_request)
    pure (some resp)

  unfoldable pub handle_batch_rpc : List Entry → M (List Response)
  unfolding handle_entry
  handle_batch_rpc [] = pure []
  handle_batch_rpc (e ∷ es) = do o ← handle_entry e; rs ← handle_batch_rpc es; pure (cons_some o rs)
