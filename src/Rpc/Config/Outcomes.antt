-- ===== src/Rpc/Config/Outcomes.antt =====
-- The outcomes of the operations that can be refused.
use golang_jsonrpc.Prelude.{
  ◌≡◌, Bool, true, false, none, some, Bytes, bytes_Eq, int_Eq, ℤ, if◌then◌else◌,
}
use golang_jsonrpc.Prelude.Maps.{lookup, insert, is_some}
use golang_jsonrpc.Rpc.Types.{RpcMethod}
use golang_jsonrpc.Rpc.Config.{
  Config, MethodInfo, compose, update, Result, ok, err, Refusal, reserved_name, duplicate_method,
  duplicate_code, is_reserved, install, register_method_with, add_error, register_error,
}

module _ {C : Type 0} where
  update-err :
      (c : Config C) (f : Config C → Result (Config C)) (b : Bool) {e : Refusal}
      → f c ≡ err e
      → update c f b ≡ (c, some e)
  unfolding update
  update-err c f b h = rw (h, update)

  update-ok :
      (c : Config C) (f : Config C → Result (Config C)) (b : Bool) {next : Config C}
      → f c ≡ ok next
      → update c f b ≡ ((if b then compose next else next), none)
  unfolding update
  update-ok c f b h = rw (h, update)

  abbrev pub installed : Bytes → RpcMethod C → MethodInfo → Config C → Config C
  installed name m info c = record c {
    methods = insert name m c.methods;
    method_info = insert name info c.method_info;
  }

  module _ (name : Bytes) (m : RpcMethod C) (info : MethodInfo) (c : Config C) where
    pub register_reserved :
        is_reserved name ≡ true → register_method_with name m info c ≡ (c, some reserved_name)
    unfolding register_method_with install
    register_reserved h = update-err c (install name m info) true (rw h)

    pub register_duplicate :
        is_reserved name ≡ false
        → is_some (lookup name c.methods) ≡ true
        → register_method_with name m info c ≡ (c, some duplicate_method)
    unfolding register_method_with install
    register_duplicate h d = update-err c (install name m info) true (rw h (rw d))

    pub register_fresh :
        is_reserved name ≡ false
        → is_some (lookup name c.methods) ≡ false
        → register_method_with name m info c ≡ (compose (installed name m info c), none)
    unfolding register_method_with install
    register_fresh h d = update-ok c (install name m info) true (rw h (rw d))

  module _ (code : ℤ) (msg : Bytes) (c : Config C) where
    pub register_error_duplicate :
        is_some (lookup code c.errors) ≡ true → register_error code msg c ≡ (c, some duplicate_code)
    unfolding register_error add_error
    register_error_duplicate d = update-err c (add_error code msg) false (rw d)

    pub register_error_fresh :
        is_some (lookup code c.errors) ≡ false
        → register_error code msg c ≡ (record c { errors = insert code msg c.errors }, none)
    unfolding register_error add_error
    register_error_fresh d = update-ok c (add_error code msg) false (rw d)
