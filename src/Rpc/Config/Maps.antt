-- ===== src/Rpc/Config/Maps.antt =====
-- Lookups in the dispatch map.
use mathlib.Core.Option
use golang_jsonrpc.Prelude.{
  ◌≡◌, refl, sym, List, [], ◌∷◌, Option, none, some, Bytes, bytes_eq, bytes_eq_iff, bytes_Eq,
  Bool-cases, inl, inr,
}
use golang_jsonrpc.Prelude.Maps.{Map, lookup}
use golang_jsonrpc.Rpc.Types.{RpcMethod, Middleware}
use golang_jsonrpc.Rpc.Config.{Config, wrap, compose_methods, compose}

module _ {C : Type 0} where
  pub lookup-compose_methods :
      (mws : List (Middleware C)) (ms : Map Bytes (RpcMethod C)) (name : Bytes)
      → lookup name (compose_methods mws ms) ≡ Option.map (wrap mws name) (lookup name ms)
  unfolding lookup compose_methods
  lookup-compose_methods mws [] name = refl
  lookup-compose_methods mws ((n, m) ∷ ms) name = elim (Bool-cases (bytes_eq n name)) [
    | inl e ↦ rw (e, (bytes_eq_iff n name).0 e)
    | inr e ↦ rw (e, lookup-compose_methods mws ms name)
  ]

  map-wrap_nil : (name : Bytes) (o : Option (RpcMethod C)) → Option.map (wrap [] name) o ≡ o
  unfolding wrap
  map-wrap_nil name none = refl
  map-wrap_nil name (some m) = refl

  compose_with :
      (c : Config C) (mws : List (Middleware C)) (name : Bytes)
      → c.middlewares ≡ mws
      → lookup name (compose c).composed ≡ Option.map (wrap mws name) (lookup name c.methods)
  unfolding compose
  compose_with c [] name e = rw e (sym (map-wrap_nil name (lookup name c.methods)))
  compose_with c (mw ∷ mws) name e = rw e (lookup-compose_methods (mw ∷ mws) c.methods name)

  -- After `compose` a call of a name reaches its handler through the whole chain, whether or not
  -- there is any middleware.
  pub lookup-compose :
      (c : Config C) (name : Bytes)
      → lookup name (compose c).composed
        ≡ Option.map (wrap c.middlewares name) (lookup name c.methods)
  lookup-compose c name = compose_with c c.middlewares name refl
