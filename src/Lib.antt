-- ===== src/Lib.antt =====
-- The server side of github.com/gumeniukcom/golang-jsonrpc2: from the bytes of a message to the
-- bytes of the reply, the configuration that a server is built with, the HTTP handler and client,
-- and the framing of messages on a byte stream with the client and the server over it.
--
-- Parts, with the source of each:
--
-- - Prelude: shared names; lists measured by native numbers, integers, maps as association lists.
-- - Text/Space, Text/Decimal: `bytes.TrimSpace`, `bytes.EqualFold`, `strconv.ParseInt` and the
--   printing of numbers, as far as the sources use them.
-- - Json/Scanner, Json/Compact: `json.Valid` and `json.Compact`, which internal/codec/codec.go and
--   jsonrpcstdio/framing.go call: the scanner of encoding/json, one step per byte.
-- - Batch/Length, Batch/Split, Batch/Notifications: `approxBatchLen`, `splitBatchElements` and
--   `lacksResponseID` of handle.go, each a state record, a step for one byte and a scan. The bytes
--   since an index are kept where the code keeps the index. Batch/Text is the shape of JSON text
--   that the theorems speak of: balanced brackets, strings with escapes, and the white space around
--   the elements; Batch/Notifications/Members is that of objects, with keys that may have escapes.
-- - Rpc/Types: the types of structs/, the errors of rpcerror.go, the codes of const.go, handlers,
--   interceptors, middleware and observers, and the events that reach the logger and the observer. A
--   Go error is how it was built; a call of foreign code returns or panics; an `any` is what
--   encoding it gives.
-- - Rpc/Config: `config` of main.go and the operations of main.go, methods.go, middleware.go,
--   interceptors.go, error.go and observe.go that replace it. One value is one snapshot; the lock
--   and the atomic pointer are the sequence of operations.
-- - Rpc/Errors: `errorResponse`, `safeInternalResponse`, `newError` and `NewResponse`.
-- - Rpc/Call, Rpc/Dispatch: `call`, `callGlobalInterceptors`, `validateRequest`, `dispatch`,
--   `observe` and `handleRPC`. Contexts are any type; time, cancellation and what the two `select`s
--   of an enforced call find are the functions of a record `World`.
-- - Rpc/Entries, Rpc/Pool: `handleBatchRPC`, once as the responses in the order of the entries, and
--   once as the pool of workers, a step relation on the indexes handed out and the slots stored, in
--   which the goroutines and the channel are the indexes held.
-- - Rpc/Typed: typed.go, `Typed` around a handler over types of the program, and `isEmptyJSONArray`.
-- - Rpc/Methods: methodinfo.go, the options of a method's metadata and `Methods` with an insertion
--   sort for `sort.Slice`; `RegisterTyped`.
-- - Rpc/Wire: the encoders of structs/, over a record `Codec` for the package easyjson.
-- - Rpc/Raw: `HandleRPCJSONRawMessage`. The decoder of requests is a field of `Codec`.
-- - Stdio/Stream, Stdio/ContentLength, Stdio/Ndjson: jsonrpcstdio/framing.go. A stream is the bytes
--   still to come and how it ends; `read_slice` is `bufio.Reader.ReadSlice` with its buffer.
-- - Http: jsonrpchttp/handler.go, `ServeHTTP` around any dispatcher.
-- - Stdio/Client: jsonrpcstdio/client.go with the writer of jsonrpcstdio/push.go: the table of the
--   calls that wait for a response, the routing of frames, and closing. A run is any sequence of the
--   steps of the calls, of the read loop and of the owner.
-- - Stdio/Serve: jsonrpcstdio/serve.go with the writer of jsonrpcstdio/push.go. The read loop has a
--   program counter; goroutines, failed writes, panics, pushes and the caller's context are steps
--   that interleave with it; slots, WaitGroup and goroutines are one list of calls in flight. Books
--   says where each frame is that was read, Replies and Wired what is on the output and why the loop
--   ends.
-- - Caller: batch.go and client.go, the requests of a batch with their ids and what a response
--   becomes.
-- - Http/Client: jsonrpchttp/client.go. What net/http does is how an exchange ends for the bytes
--   that are posted; what encoding/json reads of an array is a list of entries. Entries is the scan
--   of a response, Places the map of awaited ids, Aligned and Answered what `CallBatch` returns.
-- - Http/Fiber: jsonrpcfiber/handler.go and jsonrpcfiberv3/handler.go around any dispatcher.
-- - Ws/Serve: jsonrpcws/handler.go and the writer of jsonrpcws/push.go, a connection behind the
--   handshake.
-- - Tests: the theorems at concrete inputs.
--
-- Bounds and fuel. The header loop of a Content-Length frame runs on one round more than the limit
-- of 8192 header bytes, since each round reads at least one byte. The loops of an NDJSON frame run
-- on two rounds for each byte of the stream and one more. Printing a number runs on as many rounds
-- as the number, and one more. The nesting limit of the JSON scanner is that of encoding/json.
-- Lengths are numbers without bound; `int64` is a hypothesis where the code reads one. A Go int is
-- an integer.
--
-- Not modelled: the client of jsonrpcws and the handshake of its server, the reflect types and the
-- copies of method metadata, OpenRPC documents, the decoders over easyjson's lexer, examples and
-- benchmarks.
pub mod Prelude
pub mod Text
pub mod Json
pub mod Stdio
pub mod Caller
pub mod Batch
pub mod Rpc
pub mod Http
pub mod Ws
pub mod Tests
