-- ===== src/Rpc/Config/Consistent.antt =====
-- The invariant of a configuration, whatever operations have been applied to it.
use mathlib.Core.Option
use golang_jsonrpc.Prelude.{
  ℕ, ◌≡◌, refl, Bool, true, false, List, [], ◌∷◌, Option, Bytes, bytes_eq_iff, bytes_Eq, int_Eq, ℤ,
  arith, Bool-cases, inl, inr,
}
use golang_jsonrpc.Prelude.Maps.{Map, lookup, insert, is_some, lookup-insert}
use golang_jsonrpc.Rpc.Types.{
  RpcMethod, Middleware, Interceptor, ObserveFunc, internal_error_code, request_time_limit,
  method_not_found_error_code, invalid_request_error_code,
}
use golang_jsonrpc.Rpc.Config.Maps.{lookup-compose}
use golang_jsonrpc.Rpc.Config.Outcomes.{
  installed, register_reserved, register_duplicate, register_fresh, register_error_duplicate,
  register_error_fresh,
}
use golang_jsonrpc.Rpc.Config.{
  Config, MethodInfo, wrap, compose, new, update, is_reserved, set_default_timeout, set_logger,
  set_max_batch_size, set_batch_concurrency, set_max_message_size, set_enforced_timeout,
  set_observer, register_global_interceptor_call, use_middleware, register_method_with,
  register_error,
}

-- A code that was registered stays so.
is_some-insert :
    (code k : ℤ) (msg : Bytes) (m : Map ℤ Bytes)
    → is_some (lookup k m) ≡ true
    → is_some (lookup k (insert code msg m)) ≡ true
is_some-insert code k msg m h = rw (lookup-insert code k msg m) (ground (arith, h))

-- One call of the configuration interface.
pub data Operation (C : Type 0) : Type 0 where
  default_timeout_op : ℤ → Operation C
  logger_op : Bool → Operation C
  max_batch_size_op batch_concurrency_op max_message_size_op : ℤ → Operation C
  enforced_timeout_op : Bool → Operation C
  observer_op : Option (ObserveFunc C) → Operation C
  interceptor_op : Interceptor C → Operation C
  middleware_op : Middleware C → Operation C
  method_op : Bytes → RpcMethod C → MethodInfo → Operation C
  error_op : ℤ → Bytes → Operation C

module _ {C : Type 0} where
  unfoldable pub apply : Operation C → Config C → Config C
  apply (default_timeout_op t) c = set_default_timeout t c
  apply (logger_op l) c = set_logger l c
  apply (max_batch_size_op n) c = set_max_batch_size n c
  apply (batch_concurrency_op n) c = set_batch_concurrency n c
  apply (max_message_size_op n) c = set_max_message_size n c
  apply (enforced_timeout_op b) c = set_enforced_timeout b c
  apply (observer_op f) c = set_observer f c
  apply (interceptor_op i) c = register_global_interceptor_call i c
  apply (middleware_op mw) c = use_middleware mw c
  apply (method_op name m info) c = (register_method_with name m info c).0
  apply (error_op code msg) c = (register_error code msg c).0

  unfoldable pub apply_all : List (Operation C) → Config C → Config C
  unfolding apply
  apply_all [] c = c
  apply_all (op ∷ ops) c = apply_all ops (apply op c)

  -- The dispatch map holds each registered handler behind the whole chain of middleware, and no
  -- other name; every method has its metadata; no method has a reserved name; and the codes that
  -- the dispatcher answers with itself are registered.
  pub record IsConsistent (c : Config C) : Type 0 where
    pub dispatch_map :
        (name : Bytes)
        → lookup name c.composed ≡ Option.map (wrap c.middlewares name) (lookup name c.methods)
    pub lockstep :
        (name : Bytes) → is_some (lookup name c.methods) ≡ is_some (lookup name c.method_info)
    pub no_reserved :
        (name : Bytes) → is_some (lookup name c.methods) ≡ true → is_reserved name ≡ false
    pub internal_registered : is_some (lookup internal_error_code c.errors) ≡ true
    pub timeout_registered : is_some (lookup request_time_limit c.errors) ≡ true
    pub not_found_registered : is_some (lookup method_not_found_error_code c.errors) ≡ true
    pub invalid_registered : is_some (lookup invalid_request_error_code c.errors) ≡ true

  pub new-IsConsistent : (gomaxprocs : ℕ) → IsConsistent (new gomaxprocs)
  unfolding new lookup
  new-IsConsistent gomaxprocs = record {
    dispatch_map = λ name. refl;
    lockstep = λ name. refl;
    no_reserved = λ name h. cc;
    internal_registered = refl;
    timeout_registered = refl;
    not_found_registered = refl;
    invalid_registered = refl;
  }

  -- Recomposing restores what it is to be about the dispatch map.
  compose-IsConsistent :
      (c : Config C)
      → ((name : Bytes) → is_some (lookup name c.methods) ≡ is_some (lookup name c.method_info))
      → ((name : Bytes) → is_some (lookup name c.methods) ≡ true → is_reserved name ≡ false)
      → is_some (lookup internal_error_code c.errors) ≡ true
      → is_some (lookup request_time_limit c.errors) ≡ true
      → is_some (lookup method_not_found_error_code c.errors) ≡ true
      → is_some (lookup invalid_request_error_code c.errors) ≡ true
      → IsConsistent (compose c)
  unfolding compose
  compose-IsConsistent c l r i t n q = record {
    dispatch_map = lookup-compose c;
    lockstep = l;
    no_reserved = r;
    internal_registered = i;
    timeout_registered = t;
    not_found_registered = n;
    invalid_registered = q;
  }

  use_middleware-IsConsistent :
      (mw : Middleware C) {c : Config C} → IsConsistent c → IsConsistent (use_middleware mw c)
  unfolding use_middleware update
  use_middleware-IsConsistent mw {c} v =
      compose-IsConsistent _ v.lockstep v.no_reserved v.internal_registered v.timeout_registered
        v.not_found_registered v.invalid_registered

  installed-IsConsistent :
      (name : Bytes) (m : RpcMethod C) (info : MethodInfo) (c : Config C)
      → is_reserved name ≡ false
      → IsConsistent c
      → IsConsistent (compose (installed name m info c))
  installed-IsConsistent name m info c r v =
      compose-IsConsistent _
        (λ n.
          rw (lookup-insert name n m c.methods, lookup-insert name n info c.method_info)
            (ground (arith, v.lockstep n)))
        (λ n.
          rw (lookup-insert name n m c.methods)
            (ground (arith, bytes_eq_iff name n, v.no_reserved n)))
        v.internal_registered v.timeout_registered v.not_found_registered v.invalid_registered

  method-IsConsistent :
      (name : Bytes) (m : RpcMethod C) (info : MethodInfo) {c : Config C}
      → IsConsistent c
      → IsConsistent (register_method_with name m info c).0
  method-IsConsistent name m info {c} v = elim (Bool-cases (is_reserved name)) [
    | inl e ↦ rw (register_reserved name m info c e) v
    | inr e ↦ elim (Bool-cases (is_some (lookup name c.methods))) [
      | inl d ↦ rw (register_duplicate name m info c e d) v
      | inr d ↦ rw (register_fresh name m info c e d) (installed-IsConsistent name m info c e v)
    ]
  ]

  error-IsConsistent :
      (code : ℤ) (msg : Bytes) {c : Config C}
      → IsConsistent c
      → IsConsistent (register_error code msg c).0
  error-IsConsistent code msg {c} v = elim (Bool-cases (is_some (lookup code c.errors))) [
    | inl d ↦ rw (register_error_duplicate code msg c d) v
    | inr d ↦ rw (register_error_fresh code msg c d) (record {
      dispatch_map = v.dispatch_map;
      lockstep = v.lockstep;
      no_reserved = v.no_reserved;
      internal_registered = is_some-insert code _ msg c.errors v.internal_registered;
      timeout_registered = is_some-insert code _ msg c.errors v.timeout_registered;
      not_found_registered = is_some-insert code _ msg c.errors v.not_found_registered;
      invalid_registered = is_some-insert code _ msg c.errors v.invalid_registered;
    })
  ]

  -- Two configurations with the same registry are consistent together.
  same_registry :
      {c : Config C} (d : Config C)
      → d.methods ≡ c.methods
      → d.composed ≡ c.composed
      → d.method_info ≡ c.method_info
      → d.middlewares ≡ c.middlewares
      → d.errors ≡ c.errors
      → IsConsistent c
      → IsConsistent d
  same_registry {c} d m k i w e v = record {
    dispatch_map = λ name. rw (m, k, w) (v.dispatch_map name);
    lockstep = λ name. rw (m, i) (v.lockstep name);
    no_reserved = λ name. rw m (v.no_reserved name);
    internal_registered = rw e v.internal_registered;
    timeout_registered = rw e v.timeout_registered;
    not_found_registered = rw e v.not_found_registered;
    invalid_registered = rw e v.invalid_registered;
  }

  -- Every operation keeps the configuration consistent, those that are refused included.
  pub apply-IsConsistent :
      (op : Operation C) {c : Config C} → IsConsistent c → IsConsistent (apply op c)
  unfolding apply update set_default_timeout set_logger set_max_batch_size set_batch_concurrency
      set_max_message_size set_enforced_timeout set_observer register_global_interceptor_call
  apply-IsConsistent (default_timeout_op t) v = same_registry _ refl refl refl refl refl v
  apply-IsConsistent (logger_op l) v = same_registry _ refl refl refl refl refl v
  apply-IsConsistent (max_batch_size_op n) v = same_registry _ refl refl refl refl refl v
  apply-IsConsistent (batch_concurrency_op n) v = same_registry _ refl refl refl refl refl v
  apply-IsConsistent (max_message_size_op n) v = same_registry _ refl refl refl refl refl v
  apply-IsConsistent (enforced_timeout_op b) v = same_registry _ refl refl refl refl refl v
  apply-IsConsistent (observer_op f) v = same_registry _ refl refl refl refl refl v
  apply-IsConsistent (interceptor_op i) v = same_registry _ refl refl refl refl refl v
  apply-IsConsistent (middleware_op mw) v = use_middleware-IsConsistent mw v
  apply-IsConsistent (method_op name m info) v = method-IsConsistent name m info v
  apply-IsConsistent (error_op code msg) v = error-IsConsistent code msg v

  pub apply_all-IsConsistent :
      (ops : List (Operation C)) (c : Config C) → IsConsistent c → IsConsistent (apply_all ops c)
  unfolding apply_all
  apply_all-IsConsistent [] c v = v
  apply_all-IsConsistent (op ∷ ops) c v =
      apply_all-IsConsistent ops (apply op c) (apply-IsConsistent op v)

  -- However a server was configured, by any sequence of calls from New on, its configuration is
  -- consistent.
  pub apply_all-new-IsConsistent :
      (gomaxprocs : ℕ) (ops : List (Operation C)) → IsConsistent (apply_all ops (new gomaxprocs))
  apply_all-new-IsConsistent gomaxprocs ops =
      apply_all-IsConsistent ops (new gomaxprocs) (new-IsConsistent gomaxprocs)
