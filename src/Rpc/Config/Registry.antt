-- ===== src/Rpc/Config/Registry.antt =====
-- What a registration and a middleware do to the dispatch map.
use mathlib.Core.Option
use golang_jsonrpc.Prelude.{
  ◌≡◌, refl, ap, ◌∙◌, sym, fun_ext, Bool, true, false, List, [], ◌∷◌, ◌++◌, Option, some, Bytes,
  bytes_eq, bytes_eq_iff, bytes_Eq, if◌then◌else◌, Bool-cases, inl, inr,
}
use golang_jsonrpc.Prelude.Maps.{lookup, is_some, lookup-insert}
use golang_jsonrpc.Rpc.Types.{RpcMethod, Middleware}
use golang_jsonrpc.Rpc.Config.Maps.{lookup-compose}
use golang_jsonrpc.Rpc.Config.Outcomes.{installed, register_fresh}
use golang_jsonrpc.Rpc.Config.Consistent.{IsConsistent}
use golang_jsonrpc.Rpc.Config.{
  Config, MethodInfo, wrap, update, use_middleware, is_reserved, register_method_with,
}

module _ {C : Type 0} where
  -- The last of the chain is the innermost.
  wrap-concat :
      (mws : List (Middleware C)) (mw : Middleware C) (name : Bytes) (h : RpcMethod C)
      → wrap (mws ++ mw ∷ []) name h ≡ wrap mws name (mw name h)
  unfolding wrap
  wrap-concat [] mw name h = refl
  wrap-concat (m ∷ mws) mw name h = ap (m name) (wrap-concat mws mw name h)

  map-if :
      (f : RpcMethod C → RpcMethod C) (b : Bool) (m : RpcMethod C) (o : Option (RpcMethod C))
      → Option.map f (if b then some m else o) ≡ (if b then some (f m) else Option.map f o)
  map-if f true m o = refl
  map-if f false m o = refl

  if-eq :
      (n k : Bytes) (f : Bytes → RpcMethod C) (o : Option (RpcMethod C))
      → (if bytes_eq n k then some (f k) else o) ≡ (if bytes_eq n k then some (f n) else o)
  if-eq n k f o = elim (Bool-cases (bytes_eq n k)) [
    | inl e ↦ rw (e, (bytes_eq_iff n k).0 e)
    | inr e ↦ rw e
  ]

  -- A method that is registered with success is dispatched from then on, behind the whole chain of
  -- middleware, and every other name is dispatched as before.
  pub lookup-register :
      (name : Bytes) (m : RpcMethod C) (info : MethodInfo) (c : Config C) (k : Bytes)
      → IsConsistent c
      → is_reserved name ≡ false
      → is_some (lookup name c.methods) ≡ false
      → lookup k (register_method_with name m info c).0.composed
        ≡ (if bytes_eq name k then some (wrap c.middlewares name m) else lookup k c.composed)
  lookup-register name m info c k v r d = rw (register_fresh name m info c r d) (
      lookup-compose (installed name m info c) k
      ∙ ap (Option.map (wrap c.middlewares k)) (lookup-insert name k m c.methods)
      ∙ map-if (wrap c.middlewares k) (bytes_eq name k) m (lookup k c.methods)
      ∙ ap (λ o. if bytes_eq name k then some (wrap c.middlewares k m) else o)
          (sym (v.dispatch_map k))
      ∙ if-eq name k (λ n. wrap c.middlewares n m) (lookup k c.composed))

  -- A middleware that is added runs inside of those added before it, around the handler of every
  -- method that is registered, under that method's name.
  pub lookup-use_middleware :
      (mw : Middleware C) (c : Config C) (name : Bytes)
      → lookup name (use_middleware mw c).composed
        ≡ Option.map (λ h. wrap c.middlewares name (mw name h)) (lookup name c.methods)
  unfolding use_middleware update
  lookup-use_middleware mw c name =
      lookup-compose (record c { middlewares = c.middlewares ++ mw ∷ [] }) name
      ∙ ap (λ f. Option.map f (lookup name c.methods)) (fun_ext (wrap-concat c.middlewares mw name))
