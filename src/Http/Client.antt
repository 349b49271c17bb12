-- ===== src/Http/Client.antt =====
-- jsonrpchttp/client.go. The package net/http is what an exchange ends with for the bytes that are
-- posted; the decoder of a response, and the stream that encoding/json reads from an array, are
-- fields of a record.
pub mod Entries
pub mod Places
pub mod Answered
pub mod Aligned
pub mod Call
use golang_jsonrpc.Prelude.{
  ℕ, zero, suc, ◌≤◌, Bool, true, false, ◌&&◌, ◌||◌, not, List, [], ◌∷◌, ◌++◌, Option, none, some,
  Bytes, bytes_eq, bytes_Eq, codes, ℤ, pos, negsuc, if◌then◌else◌, ltb, leb, length, take, set,
  replicate, is_nil,
}
use golang_jsonrpc.Prelude.Maps.{Map, lookup, insert, delete}
use golang_jsonrpc.Stdio.Stream.{Ending, eof, read_failed}
use golang_jsonrpc.Rpc.Types.{
  RequestId, RawMessage, is_empty, Request, ErrorObject, Response, version_2_0, internal_error_code,
}
use golang_jsonrpc.Rpc.Config.{default_max_batch_size}
use golang_jsonrpc.Rpc.Wire.{Codec, marshal_request}
use golang_jsonrpc.Caller.{
  Params, marshal_params, Spec, BatchResult, zero_result, failed_result, batch_result_from_response,
  batch_requests, ids_of, marshal_requests,
}

abbrev pub default_max_response_size : ℕ
default_max_response_size = 16_777_216

pub record HttpClient : Type 0 where
  pub max_response_size : ℕ
  pub max_batch_size : ℤ

abbrev pub with_max_batch_size : ℤ → HttpClient → HttpClient
with_max_batch_size n c = record c { max_batch_size = n }

abbrev pub with_max_response_size : ℤ → HttpClient → HttpClient
with_max_response_size (pos zero) c = c
with_max_response_size (pos (suc n)) c = record c { max_response_size = suc n }
with_max_response_size (negsuc n) c = c

configure : List (HttpClient → HttpClient) → HttpClient → HttpClient
configure [] c = c
configure (opt ∷ opts) c = configure opts (opt c)

-- `NewClient`
unfoldable pub new_http_client : List (HttpClient → HttpClient) → HttpClient
unfolding configure
new_http_client opts = configure opts (record {
  max_response_size = default_max_response_size;
  max_batch_size = default_max_batch_size;
})

-- How an exchange ends: no request can be built, no answer comes, or a status and a body.
pub data Exchange : Type 0 where
  unbuildable unreachable : Exchange
  answered : ℕ → Bytes → Ending → Exchange

pub data CallError : Type 0 where
  bad_params cannot_build cannot_do cannot_read bad_status : CallError
  empty_response undecodable_response wrong_id batch_too_large not_an_array : CallError
  rpc_error : ErrorObject → CallError

pub data Result (A : Type 0) : Type 0 where
  ok : A → Result A
  err : CallError → Result A

-- `io.ReadAll` of an `io.LimitReader`: behind the limit nothing is read, not even an error, if the
-- body reports its end in a read of its own.
unfoldable pub read_limited : ℕ → Bytes → Ending → Option Bytes
read_limited max body eof = some (take max body)
read_limited max body read_failed = if leb max (length body) then some (take max body) else none

check_status : ℕ → Option Bytes → Result Bytes
check_status status none = err cannot_read
check_status status (some body) =
    if ltb status 200 || ltb 299 status then err bad_status else ok body

-- `postRaw`
unfoldable pub post_raw : HttpClient → Exchange → Result Bytes
unfolding check_status
post_raw c unbuildable = err cannot_build
post_raw c unreachable = err cannot_do
post_raw c (answered status body ending) =
    check_status status (read_limited c.max_response_size body ending)

-- What encoding/json reads of a text: its first token, and for an array the entries in turn, up to
-- the end or to what is no entry (`none`).
pub data Stream : Type 0 where
  no_token not_bracket : Stream
  entries : List (Option Response) → Stream

pub record Reader : Type 0 where
  pub decode_response : Bytes → Option Response
  pub open_array : Bytes → Stream

-- `string(id)`
abbrev pub id_text : RequestId → Bytes
id_text none = []
id_text (some s) = s

-- The response to a call, behind the decoder.
unfoldable pub call_result : Bytes → Option Response → Result RawMessage
call_result id none = err undecodable_response
call_result id (some r) = elim r.error [
  | some e ↦ err (rpc_error e)
  | none ↦
      if not (is_empty r.id) && not (bytes_eq (id_text r.id) id)
      then err wrong_id
      else elim r.result [ none ↦ ok none | some raw ↦ ok raw ]
]

unfoldable pub call_body : (Bytes → Option Response) → Bytes → Result Bytes → Result RawMessage
unfolding call_result
call_body decode id (err e) = err e
call_body decode id (ok []) = err empty_response
call_body decode id (ok (b ∷ body)) = call_result id (decode (b ∷ body))

-- The map of the awaited ids to the indexes of their specs, from the index `i` on.
unfoldable pub expect : ℕ → List RequestId → Map Bytes ℕ → Map Bytes ℕ
expect i [] m = m
expect i (none ∷ ids) m = expect (suc i) ids m
expect i (some id ∷ ids) m = expect (suc i) ids (insert id i m)

pub data EntryScan : Type 0 where
  scanned : Map Bytes ℕ → List BatchResult → EntryScan
  broken_entry : EntryScan

-- One response: it is kept if its id is awaited.
unfoldable pub keep_response :
    Response → Option ℕ → Map Bytes ℕ → List BatchResult → Map Bytes ℕ × List BatchResult
keep_response r none m results = (m, results)
keep_response r (some i) m results =
    (delete (id_text r.id) m, set results i (batch_result_from_response r))

-- The loop over the entries, of which at most `n` are read.
unfoldable pub scan_entries :
    ℕ → List (Option Response) → Map Bytes ℕ → List BatchResult → EntryScan
scan_entries n [] m results = scanned m results
scan_entries n (e ∷ es) [] results = scanned [] results
scan_entries zero (e ∷ es) (a ∷ m) results = scanned (a ∷ m) results
scan_entries (suc n) (none ∷ es) (a ∷ m) results = broken_entry
scan_entries (suc n) (some r ∷ es) (a ∷ m) results =
    let kept = keep_response r (lookup (id_text r.id) (a ∷ m)) (a ∷ m) results in
    scan_entries n es kept.0 kept.1

unfoldable pub unanswered : Bytes → BatchResult
unanswered id = failed_result (record {
  code = internal_error_code;
  message = codes "no response for batch id " ++ id;
  payload = none;
})

-- The awaited ids that are left get an error.
unfoldable pub fill_unanswered : Map Bytes ℕ → List BatchResult → List BatchResult
fill_unanswered [] results = results
fill_unanswered ((id, i) ∷ m) results = fill_unanswered m (set results i (unanswered id))

unfoldable pub finish_scan : EntryScan → Result (List BatchResult)
finish_scan broken_entry = err undecodable_response
finish_scan (scanned m results) = ok (fill_unanswered m results)

unfoldable pub read_array : Stream → ℕ → Map Bytes ℕ → List BatchResult → Result (List BatchResult)
unfolding finish_scan
read_array no_token n m results = err undecodable_response
read_array not_bracket n m results = err not_an_array
read_array (entries es) n m results = finish_scan (scan_entries n es m results)

-- The response to a batch, for the ids that were sent.
unfoldable pub read_batch :
    Reader → List RequestId → Map Bytes ℕ → List BatchResult → Bytes → Result (List BatchResult)
unfolding read_array
read_batch rd ids [] results body = ok results
read_batch rd ids (a ∷ m) results [] = err empty_response
read_batch rd ids (a ∷ m) results (b ∷ body) =
    read_array (rd.open_array (b ∷ body)) (length ids) (a ∷ m) results

unfoldable pub batch_body : Reader → List RequestId → Result Bytes → Result (List BatchResult)
unfolding read_batch
batch_body rd ids (err e) = err e
batch_body rd ids (ok body) =
    read_batch rd ids (expect 0 ids []) (replicate (length ids) zero_result) body

unfoldable pub over_batch_limit : ℤ → ℕ → Bool
over_batch_limit (pos zero) n = false
over_batch_limit (pos (suc m)) n = ltb (suc m) n
over_batch_limit (negsuc m) n = false

-- `server` is what an exchange ends with for the bytes that are posted, and `k` the encoder.
module _ (k : Codec) (rd : Reader) (server : Bytes → Exchange) (c : HttpClient) where
  -- `post`
  unfoldable pub post : Bytes → Params → RequestId → Result Bytes
  post method params id = elim (marshal_params params) [
    | none ↦ err bad_params
    | some raw ↦ post_raw c (
        server (
          marshal_request k
            (record { version = version_2_0; method = method; params = raw; id = id })))
  ]

  -- `Call`, with the id that is drawn for it.
  unfoldable pub http_call : Bytes → Params → Bytes → Result RawMessage
  unfolding call_body
  http_call method params id = call_body rd.decode_response id (post method params (some id))

  unfoldable pub notified : Result Bytes → Result (Unit {0})
  notified (err e) = err e
  notified (ok body) = ok tt

  unfoldable pub http_notify : Bytes → Params → Result (Unit {0})
  unfolding notified
  http_notify method params = notified (post method params none)

  unfoldable pub post_batch : Option (List Request) → Result (List BatchResult)
  unfolding batch_body
  post_batch none = err bad_params
  post_batch (some reqs) =
      batch_body rd (ids_of reqs) (post_raw c (server (marshal_requests k reqs)))

  -- `CallBatch`
  unfoldable pub call_batch : (ℕ → Bytes) → List Spec → Result (List BatchResult)
  unfolding post_batch
  call_batch draw [] = ok []
  call_batch draw (s ∷ specs) =
      if over_batch_limit c.max_batch_size (length (s ∷ specs))
      then err batch_too_large
      else post_batch (batch_requests draw 0 (s ∷ specs))
