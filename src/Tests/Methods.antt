-- ===== src/Tests/Methods.antt =====
-- The metadata of two methods, one of them typed.
use golang_jsonrpc.Prelude.{ℕ, ◌≡◌, refl, List, [], ◌∷◌, map, Bytes, codes}
use golang_jsonrpc.Rpc.Config.{Config, MethodInfo, name_only}
use golang_jsonrpc.Rpc.Methods.{
  infos, methods, sort_by_name, register_typed, with_tags, with_public, with_summary, with_timeout,
}
use golang_jsonrpc.Rpc.Methods.Listed.{IsSorted, weight, methods-IsSorted}
use golang_jsonrpc.Tests.Fixtures.{server}
use golang_jsonrpc.Tests.Typed.{no_number, print_one, double}

abbrev two_methods : Config ℕ
two_methods =
    (register_typed no_number 0 print_one (codes "double") double
      (with_tags (codes "a" ∷ []) ∷ with_tags (codes "b" ∷ []) ∷ with_public ∷ []) server).0

names : List MethodInfo → List Bytes
names ms = map (λ mi. mi.name) ms

names_text :
    names (sort_by_name (name_only (codes "echo") ∷ name_only (codes "double") ∷ []))
    ≡ codes "double" ∷ codes "echo" ∷ []
unfolding names sort_by_name golang_jsonrpc.Rpc.Methods.insert_sorted
    golang_jsonrpc.Rpc.Methods.bytes_lt
names_text = refl

methods-IsSorted_example :
    IsSorted (methods two_methods)
    × ((f : MethodInfo → ℕ)
        → weight f (methods two_methods) ≡ weight f (infos two_methods.method_info))
methods-IsSorted_example = methods-IsSorted two_methods
