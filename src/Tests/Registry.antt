-- ===== src/Tests/Registry.antt =====
-- The configuration of the server, step by step.
use mathlib.Core.Option
use golang_jsonrpc.Prelude.{
  ℕ, ◌≡◌, refl, Bool, true, false, List, [], ◌∷◌, Option, none, some, Bytes, bytes_eq, codes,
  bytes_Eq, int_Eq, ℤ, pos, if◌then◌else◌,
}
use golang_jsonrpc.Prelude.Maps.{lookup}
use golang_jsonrpc.Rpc.Config.{Config, new, name_only, wrap, register_method_with, use_middleware}
use golang_jsonrpc.Rpc.Config.Consistent.{
  apply, apply_all, IsConsistent, apply_all-new-IsConsistent,
}
use golang_jsonrpc.Rpc.Config.Registry.{lookup-register, lookup-use_middleware}
use golang_jsonrpc.Tests.Fixtures.{
  echo, echo_name, no_params, operations, server, server-IsConsistent,
}

apply_all-new-IsConsistent_example : IsConsistent (apply_all operations (new 4))
apply_all-new-IsConsistent_example = apply_all-new-IsConsistent 4 operations

lookup-register_example :
    lookup
      (codes "pong")
      (register_method_with (codes "pong") echo (name_only (codes "pong")) server).0.composed
    ≡ (if bytes_eq (codes "pong") (codes "pong")
        then some (wrap server.middlewares (codes "pong") echo)
        else lookup (codes "pong") server.composed)
unfolding apply_all apply new lookup golang_jsonrpc.Rpc.Config.set_max_message_size
    golang_jsonrpc.Rpc.Config.update golang_jsonrpc.Rpc.Config.set_max_batch_size
    register_method_with golang_jsonrpc.Rpc.Config.install golang_jsonrpc.Rpc.Config.compose
    golang_jsonrpc.Prelude.Maps.insert
lookup-register_example =
    lookup-register (codes "pong") echo (name_only (codes "pong")) server (codes "pong")
      server-IsConsistent refl refl

lookup-use_middleware_example :
    lookup echo_name (use_middleware no_params server).composed
    ≡ Option.map
        (λ h. wrap server.middlewares echo_name (no_params echo_name h))
        (lookup echo_name server.methods)
lookup-use_middleware_example = lookup-use_middleware no_params server echo_name
