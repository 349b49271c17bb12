-- ===== src/Rpc/Config.antt =====
-- main.go, methods.go, middleware.go, interceptors.go, error.go, observe.go: the configuration and
-- the operations that replace it. A value of `Config` is one immutable snapshot; an operation takes
-- the current snapshot to the one that is stored next, and `update` stores nothing on an error.
pub mod Maps
pub mod Outcomes
pub mod Consistent
pub mod Registry
use golang_jsonrpc.Prelude.{
  ℕ, ◌+◌, ◌*◌, ◌≡◌, refl, Bool, true, false, ◌&&◌, ◌||◌, not, List, [], ◌∷◌, ◌++◌, Option, none,
  some, Bytes, codes, bytes_eq, bytes_Eq, int_Eq, ℤ, pos, negsuc, int_leb, if◌then◌else◌, take,
  is_nil,
}
use golang_jsonrpc.Prelude.Maps.{Map, lookup, insert, is_some}
use golang_jsonrpc.Rpc.Types.{
  Any, RpcMethod, Interceptor, Middleware, ObserveFunc, Event, reserved_code, parse_error_code,
  invalid_request_error_code, method_not_found_error_code, invalid_params_error_code,
  internal_error_code, method_not_implemented, request_time_limit,
}

-- The fields of `MethodInfo` that are plain values.
pub record ErrorInfo : Type 0 where
  pub code : ℤ
  pub message : Bytes
  pub description : Bytes

pub record ExamplePair : Type 0 where
  pub name : Bytes
  pub params : Any
  pub result : Any

pub record MethodInfo : Type 0 where
  pub name : Bytes
  pub summary : Bytes
  pub description : Bytes
  pub deprecated : Bool
  pub tags : List Bytes
  pub errors : List ErrorInfo
  pub examples : List ExamplePair
  pub extra : Map Bytes Any
  pub published_extra : Map Bytes Any
  pub is_public : Bool
  pub timeout : ℤ

pub record Config (C : Type 0) : Type 0 where
  pub errors : Map ℤ Bytes
  pub methods : Map Bytes (RpcMethod C)
  pub composed : Map Bytes (RpcMethod C)
  pub method_info : Map Bytes MethodInfo
  pub global_interceptors : List (Interceptor C)
  pub middlewares : List (Middleware C)
  pub default_timeout : ℤ
  -- whether a logger is set
  pub logger : Bool
  pub observe : Option (ObserveFunc C)
  pub max_batch_size : ℤ
  pub batch_concurrency : ℤ
  pub max_message_size : ℤ
  pub enforced_timeout : Bool

pub data Refusal : Type 0 where
  reserved_name duplicate_method duplicate_code : Refusal

pub data Result (A : Type 0) : Type 0 where
  ok : A → Result A
  err : Refusal → Result A

abbrev pub default_max_batch_size : ℤ
default_max_batch_size = pos 100

abbrev default_errors : Map ℤ Bytes
default_errors =
    (parse_error_code, codes "parse_error_not_well_formed")
    ∷ (invalid_request_error_code, codes "invalid_request_not_conforming_to_spec")
    ∷ (method_not_found_error_code, codes "requested_method_not_found")
    ∷ (invalid_params_error_code, codes "invalid_method_parameters")
    ∷ (internal_error_code, codes "internal_error")
    ∷ (method_not_implemented, codes "method_not_implemented")
    ∷ (request_time_limit, codes "request_time_limit")
    ∷ []

abbrev rpc_discover : Bytes
rpc_discover = codes "rpc.discover"

abbrev pub is_reserved : Bytes → Bool
is_reserved name = bytes_eq (take 4 name) (codes "rpc.") && not (bytes_eq name rpc_discover)

-- `name_only` is the metadata of a method that `RegisterMethod` installs.
abbrev pub name_only : Bytes → MethodInfo
name_only n = record {
  name = n;
  summary = [];
  description = [];
  deprecated = false;
  tags = [];
  errors = [];
  examples = [];
  extra = [];
  published_extra = [];
  is_public = false;
  timeout = pos 0;
}

module _ {C : Type 0} where
  -- The chain around one handler: the first middleware is the outermost.
  unfoldable pub wrap : List (Middleware C) → Bytes → RpcMethod C → RpcMethod C
  wrap [] name h = h
  wrap (mw ∷ mws) name h = mw name (wrap mws name h)

  unfoldable pub compose_methods :
      List (Middleware C) → Map Bytes (RpcMethod C) → Map Bytes (RpcMethod C)
  compose_methods mws [] = []
  compose_methods mws ((name, m) ∷ ms) = (name, wrap mws name m) ∷ compose_methods mws ms

  unfoldable pub compose : Config C → Config C
  compose c = record c {
    composed = if is_nil c.middlewares then c.methods else compose_methods c.middlewares c.methods;
  }

  -- `gomaxprocs` is what the runtime reports.
  unfoldable pub new : ℕ → Config C
  new gomaxprocs = record {
    errors = default_errors;
    methods = [];
    composed = [];
    method_info = [];
    global_interceptors = [];
    middlewares = [];
    default_timeout = pos (30 * 1_000_000_000);
    logger = true;
    observe = none;
    max_batch_size = default_max_batch_size;
    batch_concurrency = pos (4 * gomaxprocs);
    max_message_size = pos 0;
    enforced_timeout = false;
  }

  -- `update`: the snapshot is swapped if `mutate` succeeds.
  unfoldable pub update :
      Config C → (Config C → Result (Config C)) → Bool → Config C × Option Refusal
  update c mutate recompose = elim (mutate c) [
    | err e ↦ (c, some e)
    | ok next ↦ (if recompose then compose next else next, none)
  ]

  abbrev update_config : Config C → (Config C → Result (Config C)) → Config C × Option Refusal
  update_config c mutate = update c mutate false

  abbrev update_registry : Config C → (Config C → Result (Config C)) → Config C × Option Refusal
  update_registry c mutate = update c mutate true

  unfoldable pub set_default_timeout : ℤ → Config C → Config C
  set_default_timeout t c = (update_config c (λ n. ok (record n { default_timeout = t }))).0

  unfoldable pub set_logger : Bool → Config C → Config C
  set_logger l c = (update_config c (λ n. ok (record n { logger = l }))).0

  unfoldable pub set_max_batch_size : ℤ → Config C → Config C
  set_max_batch_size k c = (update_config c (λ n. ok (record n { max_batch_size = k }))).0

  unfoldable pub set_batch_concurrency : ℤ → Config C → Config C
  set_batch_concurrency k c = (update_config c (λ n. ok (record n { batch_concurrency = k }))).0

  unfoldable pub set_max_message_size : ℤ → Config C → Config C
  set_max_message_size k c = (update_config c (λ n. ok (record n { max_message_size = k }))).0

  unfoldable pub set_enforced_timeout : Bool → Config C → Config C
  set_enforced_timeout b c = (update_config c (λ n. ok (record n { enforced_timeout = b }))).0

  unfoldable pub set_observer : Option (ObserveFunc C) → Config C → Config C
  set_observer f c = (update_config c (λ n. ok (record n { observe = f }))).0

  unfoldable pub register_global_interceptor_call : Interceptor C → Config C → Config C
  register_global_interceptor_call i c =
      (update_config c
        (λ n. ok (record n { global_interceptors = n.global_interceptors ++ i ∷ [] }))).0

  unfoldable pub use_middleware : Middleware C → Config C → Config C
  use_middleware mw c =
      (update_registry c (λ n. ok (record n { middlewares = n.middlewares ++ mw ∷ [] }))).0

  unfoldable pub install : Bytes → RpcMethod C → MethodInfo → Config C → Result (Config C)
  install name m info c =
      if is_reserved name
      then err reserved_name
      else if is_some (lookup name c.methods)
      then err duplicate_method
      else ok (record c {
        methods = insert name m c.methods;
        method_info = insert name info c.method_info;
      })

  unfoldable pub register_method_with :
      Bytes → RpcMethod C → MethodInfo → Config C → Config C × Option Refusal
  register_method_with name m info c = update_registry c (install name m info)

  unfoldable pub register_method : Bytes → RpcMethod C → Config C → Config C × Option Refusal
  unfolding register_method_with
  register_method name m c = register_method_with name m (name_only name) c

  unfoldable pub add_error : ℤ → Bytes → Config C → Result (Config C)
  add_error code msg c =
      if is_some (lookup code c.errors)
      then err duplicate_code
      else ok (record c { errors = insert code msg c.errors })

  unfoldable pub register_error : ℤ → Bytes → Config C → Config C × Option Refusal
  register_error code msg c = update_config c (add_error code msg)

  -- What `RegisterError` logs.
  unfoldable pub register_error_events : ℤ → Config C → List Event
  register_error_events code c =
      if not (is_some (lookup code c.errors))
        && int_leb (negsuc 32767) code
        && int_leb code (negsuc 31999)
        && c.logger
      then reserved_code code ∷ []
      else []
