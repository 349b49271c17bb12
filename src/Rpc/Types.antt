-- ===== src/Rpc/Types.antt =====
-- structs/request.go, structs/response.go, structs/id.go, rpcerror.go, const.go, methods.go,
-- middleware.go, interceptors.go, observe.go: the data of the dispatcher, the handlers that it
-- calls, and what it reports to the logger and to the observer.
use golang_jsonrpc.Prelude.{
  ℕ, Bool, true, false, List, [], ◌∷◌, ◌++◌, Option, none, some, Bytes, codes, ℤ, pos, negsuc,
}

-- A Go value of type `any`, by what encoding it to JSON gives.
pub data Any : Type 0 where
  encodes : Bytes → Any
  unencodable : Any

-- `structs.ID` and `json.RawMessage`: nil, or bytes.
abbrev pub RequestId : Type 0
RequestId = Option Bytes

abbrev pub RawMessage : Type 0
RawMessage = Option Bytes

-- `len(b) == 0` of a byte slice.
abbrev pub is_empty : Option Bytes → Bool
is_empty none = true
is_empty (some []) = true
is_empty (some (c ∷ s)) = false

pub record Request : Type 0 where
  pub version : Bytes
  pub method : Bytes
  pub params : RawMessage
  pub id : RequestId

pub record ErrorObject : Type 0 where
  pub code : ℤ
  pub message : Bytes
  pub payload : Option Any

-- `result` and `error` are pointers.
pub record Response : Type 0 where
  pub version : Bytes
  pub result : Option RawMessage
  pub error : Option ErrorObject
  pub id : RequestId

-- A Go error, by how it was built. `rpc_error` is a *RPCError, with the error that it wraps.
pub data GoError : Type 0 where
  message : Bytes → GoError
  wrap : Bytes → GoError → GoError
  join : GoError → GoError → GoError
  rpc_error : ℤ → Option Any → GoError
  rpc_error_of : ℤ → Option Any → GoError → GoError
  nil_rpc_error : GoError

-- `errors.As(err, &rpcErr)`: the first *RPCError of the chain, which may be a typed nil.
unfoldable pub as_rpc_error : GoError → Option (Option (ℤ × Option Any))
as_rpc_error (message s) = none
as_rpc_error (wrap s e) = as_rpc_error e
as_rpc_error (join e f) = elim (as_rpc_error e) [ none ↦ as_rpc_error f | some r ↦ some r ]
as_rpc_error (rpc_error c d) = some (some (c, d))
as_rpc_error (rpc_error_of c d e) = some (some (c, d))
as_rpc_error nil_rpc_error = some none

abbrev pub version_2_0 : Bytes
version_2_0 = codes "2.0"

-- The codes of const.go.
abbrev pub parse_error_code : ℤ
parse_error_code = negsuc 32699

abbrev pub invalid_request_error_code : ℤ
invalid_request_error_code = negsuc 32599

abbrev pub method_not_found_error_code : ℤ
method_not_found_error_code = negsuc 32600

abbrev pub invalid_params_error_code : ℤ
invalid_params_error_code = negsuc 32601

abbrev pub internal_error_code : ℤ
internal_error_code = negsuc 32602

abbrev pub ok_code : ℤ
ok_code = pos 0

abbrev pub method_not_implemented : ℤ
method_not_implemented = negsuc 32603

abbrev pub request_time_limit : ℤ
request_time_limit = negsuc 32604

-- A call of code that the program does not own: it returns, or it panics with a value whose text
-- is given.
pub data Outcome (A : Type 0) : Type 0 where
  returned : A → Outcome A
  panicked : Bytes → Outcome A

pub record Returned : Type 0 where
  pub result : RawMessage
  pub code : ℤ
  pub err : Option GoError

-- Handlers, interceptors and middleware, over the type of contexts.
abbrev pub RpcMethod : Type 0 → Type 0
RpcMethod C = C → RawMessage → Outcome Returned

abbrev pub Interceptor : Type 0 → Type 0
Interceptor C = C → Bytes → RawMessage → RequestId → Outcome (C × ℤ × Option GoError)

abbrev pub Middleware : Type 0 → Type 0
Middleware C = Bytes → RpcMethod C → RpcMethod C

pub record CallInfo : Type 0 where
  pub method : Bytes
  pub code : ℤ
  pub err : Option ErrorObject
  pub duration : ℕ
  pub notification : Bool

abbrev pub ObserveFunc : Type 0 → Type 0
ObserveFunc C = C → CallInfo → Outcome (Unit {0})

pub data Level : Type 0 where
  debug warn error : Level

-- What reaches the logger and the observer, in order.
pub data Event : Type 0 where
  error_logged : Level → ℤ → GoError → Event
  unregistered_code : ℤ → Event
  reserved_code : ℤ → Event
  observed : CallInfo → Event
  observer_panicked : Bytes → Event
  marshal_failed : Event
  request_too_large : ℕ → Event
  batch_too_large : ℕ → Event

-- A result with the events on the way to it.
abbrev pub M : Type 0 → Type 0
M A = A × List Event

abbrev pub pure : {A : Type 0} → A → M A
pure a = (a, [])

abbrev pub tell : List Event → M (Unit {0})
tell es = (tt, es)

infixl 5 ◌>>=◌ ◌>>◌
abbrev pub ◌>>=◌ : {A B : Type 0} → M A → (A → M B) → M B
m >>= f = ((f m.0).0, m.1 ++ (f m.0).1)

abbrev pub ◌>>◌ : {B : Type 0} → M (Unit {0}) → M B → M B
m >> k = m >>= λ _. k
