-- ===== src/Rpc/Raw/Limits.antt =====
-- The limits on the size of a message and of a batch, and what is within them.
use golang_jsonrpc.Prelude.{
  zero, suc, ◌≡◌, refl, ap, ◌∙◌, sym, append-nil, Bool, true, false, not, List, [], ◌∷◌, ◌++◌, none,
  some, Bytes, ℤ, pos, negsuc, if◌then◌else◌, length, length-map, get_last?-concat, map, All, arith,
}
use golang_jsonrpc.Batch.Length.Exact.{approx_batch_len-array}
use golang_jsonrpc.Batch.Text.{
  Blank, Padded, IsPadded, join, array, Frame, IsBlankFrame, around, trim_space-around,
}
use golang_jsonrpc.Batch.Notifications.{lacks_response_id}
use golang_jsonrpc.Batch.Notifications.Members.{Object, IsObject, object_text}
use golang_jsonrpc.Batch.Notifications.Elements.{Item, IsItem, padded, items-IsPadded}
use golang_jsonrpc.Batch.Notifications.Replies.{
  lacks_response_id-object, lacks_response_id-array, may_have_id, some_may_have_id,
}
use golang_jsonrpc.Rpc.Config.{Config}
use golang_jsonrpc.Rpc.Dispatch.{World}
use golang_jsonrpc.Rpc.Wire.{Codec}
use golang_jsonrpc.Rpc.Raw.{
  resp_request_too_large, resp_batch_too_large, exceeds, batch_count, refuse, handle_array,
  handle_delimited, handle_trimmed, handle_raw,
}

-- The count of the scan serves the limit as the true number of elements would.
exceeds-batch_count :
    (l : ℤ) (space : Bytes) (ps : List Padded)
    → Blank space
    → All IsPadded ps
    → exceeds l (batch_count l (array space ps)) ≡ exceeds l (length ps)
unfolding exceeds batch_count
exceeds-batch_count (pos zero) space ps b h = refl
exceeds-batch_count (pos (suc m)) space ps b h =
    rw (approx_batch_len-array (suc m) space ps b h (omega arith)) (ground arith)
exceeds-batch_count (negsuc m) space ps b h = refl

refuse-lacks :
    (payload resp : Bytes) (b : Bool)
    → lacks_response_id payload ≡ not b
    → refuse payload resp ≡ (if b then some resp else none)
unfolding refuse
refuse-lacks payload resp true h = rw h
refuse-lacks payload resp false h = rw h

abbrev no_frame : Frame
no_frame = record { before = []; after = [] }

module _ (k : Codec) {C : Type 0} (cfg : Config C) (w : World C) (ctx : C) where
  -- The text of a request object over the size limit, white space in it and around it counted, is
  -- answered exactly if a key at its top level is spelled `id` or has an escape sequence, whatever
  -- the decoder would make of it and however the server is configured otherwise.
  pub handle_raw-oversize :
      (f : Frame) (o : Object)
      → IsBlankFrame f
      → IsObject o
      → exceeds cfg.max_message_size (length (around f (object_text o))) ≡ true
      → (handle_raw k cfg w ctx (around f (object_text o))).0
        ≡ (if may_have_id o then some resp_request_too_large else none)
  unfolding handle_raw
  handle_raw-oversize f o b h e = rw e (
      refuse-lacks (around f (object_text o)) resp_request_too_large (may_have_id o)
        (lacks_response_id-object f o b h))

  handle_trimmed-array :
      (s : Bytes)
      → handle_trimmed k cfg w ctx (b'[' ∷ (s ++ b']' ∷ []))
        ≡ handle_array k cfg w ctx (b'[' ∷ (s ++ b']' ∷ []))
  unfolding handle_trimmed handle_delimited
  handle_trimmed-array [] = refl
  handle_trimmed-array (d ∷ s) =
      ap (handle_delimited k cfg w ctx (b'[' ∷ d ∷ (s ++ b']' ∷ [])) b'[')
        (get_last?-concat (d ∷ s) b']')

  handle_raw-array :
      (f : Frame) (s : Bytes)
      → IsBlankFrame f
      → exceeds cfg.max_message_size (length (around f (b'[' ∷ (s ++ b']' ∷ [])))) ≡ false
      → handle_raw k cfg w ctx (around f (b'[' ∷ (s ++ b']' ∷ [])))
        ≡ handle_array k cfg w ctx (b'[' ∷ (s ++ b']' ∷ []))
  unfolding handle_raw
  handle_raw-array f s b e = rw e (
      ap (handle_trimmed k cfg w ctx)
        (trim_space-around f b'[' s b']' b (omega arith) (omega arith))
      ∙ handle_trimmed-array s)

  module _ (ps : List Padded) (h : All IsPadded ps) where
    handle_array-over :
        exceeds cfg.max_batch_size (length ps) ≡ true
        → (handle_array k cfg w ctx (array [] ps)).0 ≡ refuse (array [] ps) resp_batch_too_large
    unfolding handle_array
    handle_array-over e = rw (exceeds-batch_count cfg.max_batch_size [] ps tt h ∙ e)

  lacks_response_id-batch :
      (i : Item) (is : List Item)
      → All IsItem (i ∷ is)
      → lacks_response_id (array [] (map padded (i ∷ is))) ≡ not (some_may_have_id (i ∷ is))
  lacks_response_id-batch i is h =
      ap lacks_response_id (sym (append-nil (array [] (map padded (i ∷ is)))))
      ∙ lacks_response_id-array no_frame i is (record { blank_before = tt; blank_after = tt }) h

  -- A batch of request objects of more elements than the limit, within the size limit and with any
  -- white space in it and around it, is answered exactly if a key at the top level of one of its
  -- objects is spelled `id` or has an escape sequence.
  pub handle_raw-over_batch_limit :
      (f : Frame) (i : Item) (is : List Item)
      → IsBlankFrame f
      → All IsItem (i ∷ is)
      → exceeds cfg.max_message_size (length (around f (array [] (map padded (i ∷ is))))) ≡ false
      → exceeds cfg.max_batch_size (length (i ∷ is)) ≡ true
      → (handle_raw k cfg w ctx (around f (array [] (map padded (i ∷ is))))).0
        ≡ (if some_may_have_id (i ∷ is) then some resp_batch_too_large else none)
  handle_raw-over_batch_limit f i is b h size over =
      ap (λ m. m.0) (handle_raw-array f (join [] (map padded (i ∷ is))) b size)
      ∙ handle_array-over (map padded (i ∷ is)) (items-IsPadded (i ∷ is) h)
          (ap (exceeds cfg.max_batch_size) (length-map padded (i ∷ is)) ∙ over)
      ∙ refuse-lacks _ resp_batch_too_large (some_may_have_id (i ∷ is))
          (lacks_response_id-batch i is h)
