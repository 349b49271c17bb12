-- ===== src/Rpc/Raw.antt =====
-- handle.go: `HandleRPCJSONRawMessage`, from the bytes of a message to the bytes of the reply, and
-- error.go: the replies that are written in advance.
pub mod Limits
pub mod Repair
use golang_jsonrpc.Prelude.{
  ℕ, zero, suc, ◌≡◌, refl, Bool, true, false, ◌&&◌, ◌||◌, not, List, [], ◌∷◌, ◌++◌, Option, none,
  some, Bytes, codes, ℤ, pos, negsuc, if◌then◌else◌, ◌==◌, ltb, length, get_last?, map,
}
use golang_jsonrpc.Text.Space.{trim_space}
use golang_jsonrpc.Json.Scanner.{valid}
use golang_jsonrpc.Batch.Length.{approx_batch_len}
use golang_jsonrpc.Batch.Split.{split_batch_elements}
use golang_jsonrpc.Batch.Notifications.{lacks_response_id}
use golang_jsonrpc.Rpc.Types.{
  RequestId, Request, Response, Event, marshal_failed, request_too_large, batch_too_large, M, pure,
  tell, ◌>>=◌, ◌>>◌,
}
use golang_jsonrpc.Rpc.Config.{Config}
use golang_jsonrpc.Rpc.Errors.{safe_internal_response}
use golang_jsonrpc.Rpc.Dispatch.{World, handle_rpc}
use golang_jsonrpc.Rpc.Entries.{Entry, decoded, parse_failed, handle_batch_rpc}
use golang_jsonrpc.Rpc.Wire.{Codec, marshal_response, marshal_batch}

abbrev pub resp_internal : Bytes
resp_internal =
    codes
      "{\"jsonrpc\":\"2.0\",\"error\":{\"code\":-32603,\"message\":\"internal_error\"},\"id\":null}"

abbrev pub resp_invalid_request : Bytes
resp_invalid_request =
    codes
      "{\"jsonrpc\":\"2.0\",\"error\":{\"code\":-32600,\"message\":\"invalid_request_not_conforming_to_spec\"},\"id\":null}"

abbrev pub resp_batch_too_large : Bytes
resp_batch_too_large =
    codes
      "{\"jsonrpc\":\"2.0\",\"error\":{\"code\":-32600,\"message\":\"batch_too_large\"},\"id\":null}"

abbrev pub resp_request_too_large : Bytes
resp_request_too_large =
    codes
      "{\"jsonrpc\":\"2.0\",\"error\":{\"code\":-32600,\"message\":\"request_too_large\"},\"id\":null}"

abbrev pub resp_parse_error : Bytes
resp_parse_error =
    codes
      "{\"jsonrpc\":\"2.0\",\"error\":{\"code\":-32700,\"message\":\"parse_error_not_well_formed\"},\"id\":null}"

-- A valid JSON text that is no request object, or no JSON text.
unfoldable pub error_for_malformed : Bytes → Bytes
error_for_malformed payload = if valid payload then resp_invalid_request else resp_parse_error

-- Whether a limit is set and is exceeded.
unfoldable pub exceeds : ℤ → ℕ → Bool
exceeds (pos zero) n = false
exceeds (pos (suc m)) n = ltb (suc m) n
exceeds (negsuc m) n = false

-- `approxBatchLen` stops at the limit, which is positive where it is called.
unfoldable pub batch_count : ℤ → Bytes → ℕ
batch_count (pos m) payload = approx_batch_len payload m
batch_count (negsuc m) payload = zero

-- The reply to a text that is over a limit: none, if it surely holds nothing but notifications.
unfoldable pub refuse : Bytes → Bytes → Option Bytes
refuse payload resp = if lacks_response_id payload then none else some resp

-- A debug message for the logger, if there is one.
unfoldable pub log : Bool → Event → List Event
log true e = e ∷ []
log false e = []

module _ {C : Type 0} (k : Codec) (cfg : Config C) where
  -- An element that is valid JSON but no request fails alone; one that is no JSON fails the batch.
  decode_entry : Bytes → Option Request → Option Entry
  decode_entry e (some r) = some (decoded r)
  decode_entry e none = if valid e then some parse_failed else none

  cons_entry : Option Entry → Option (List Entry) → Option (List Entry)
  cons_entry none es = none
  cons_entry (some e) none = none
  cons_entry (some e) (some es) = some (e ∷ es)

  unfoldable pub decode_entries : List Bytes → Option (List Entry)
  unfolding decode_entry cons_entry
  decode_entries [] = some []
  decode_entries (e ∷ es) = cons_entry (decode_entry e (k.decode_request e)) (decode_entries es)

  -- A response that cannot be written gives way to an internal error with its id.
  keep_or_replace : Response → Option Bytes → Response
  keep_or_replace r none = safe_internal_response cfg r.id
  keep_or_replace r (some text) = r

  unfoldable pub repair : Response → Response
  unfolding keep_or_replace
  repair r = keep_or_replace r (marshal_response k r)

  -- The bytes, if they could be written, or `respInternal`.
  unfoldable pub or_internal : Option Bytes → Bytes
  or_internal none = resp_internal
  or_internal (some text) = text

  unfoldable pub batch_text : List Response → Option Bytes → M (Option Bytes)
  unfolding repair or_internal log
  batch_text rs (some text) = pure (some text)
  batch_text rs none = do
    tell (log cfg.logger marshal_failed)
    pure (some (or_internal (marshal_batch k (map repair rs))))

  -- A batch of notifications has no reply.
  unfoldable pub batch_reply : List Response → M (Option Bytes)
  unfolding batch_text
  batch_reply [] = pure none
  batch_reply (r ∷ rs) = batch_text (r ∷ rs) (marshal_batch k (r ∷ rs))

  single_text : RequestId → Option Bytes → M (Option Bytes)
  unfolding or_internal log
  single_text id (some text) = pure (some text)
  single_text id none = do
    tell (log cfg.logger marshal_failed)
    pure (some (or_internal (marshal_response k (safe_internal_response cfg id))))

  unfoldable pub single_reply : RequestId → Option Response → M (Option Bytes)
  unfolding single_text
  single_reply id none = pure none
  single_reply id (some resp) = single_text id (marshal_response k resp)

  module _ (w : World C) (ctx : C) where
    unfoldable pub handle_entries : Option (List Entry) → M (Option Bytes)
    unfolding batch_reply
    handle_entries none = pure (some resp_parse_error)
    handle_entries (some es) = do rs ← handle_batch_rpc w cfg ctx es; batch_reply rs

    unfoldable pub handle_elements : Bytes → Option (List Bytes) → M (Option Bytes)
    unfolding handle_entries
    handle_elements payload none = pure (some (error_for_malformed payload))
    handle_elements payload (some []) = pure (some resp_invalid_request)
    handle_elements payload (some (e ∷ es)) = handle_entries (decode_entries (e ∷ es))

    unfoldable pub handle_array : Bytes → M (Option Bytes)
    unfolding refuse handle_elements log
    handle_array payload =
        let n = batch_count cfg.max_batch_size payload in
        let rest = handle_elements payload (split_batch_elements payload) in
        if exceeds cfg.max_batch_size n
        then (refuse payload resp_batch_too_large, log cfg.logger (batch_too_large n))
        else rest

    handle_object : Bytes → Option Request → M (Option Bytes)
    unfolding single_reply error_for_malformed
    handle_object payload none = pure (some (error_for_malformed payload))
    handle_object payload (some r) = do resp ← handle_rpc w cfg ctx r; single_reply r.id resp

    -- The dispatch on the first and on the last byte.
    unfoldable pub handle_delimited : Bytes → ℕ → Option ℕ → M (Option Bytes)
    unfolding handle_array handle_object error_for_malformed
    handle_delimited payload c none = pure (some (error_for_malformed payload))
    handle_delimited payload c (some z) =
        if c == b'[' && z == b']'
        then handle_array payload
        else if c == b'{' && z == b'}'
        then handle_object payload (k.decode_request payload)
        else pure (some (error_for_malformed payload))

    -- The message without the white space around it.
    unfoldable pub handle_trimmed : Bytes → M (Option Bytes)
    unfolding handle_delimited
    handle_trimmed [] = pure (some resp_parse_error)
    handle_trimmed (c ∷ []) = pure (some (error_for_malformed (c ∷ [])))
    handle_trimmed (c ∷ d ∷ s) = handle_delimited (c ∷ d ∷ s) c (get_last? (d ∷ s))

    unfoldable pub handle_raw : Bytes → M (Option Bytes)
    unfolding handle_trimmed refuse exceeds log
    handle_raw payload =
        if exceeds cfg.max_message_size (length payload)
        then (
          refuse payload resp_request_too_large,
          log cfg.logger (request_too_large (length payload)),
        )
        else handle_trimmed (trim_space payload)
