-- ===== src/Rpc/Methods.antt =====
-- methodinfo.go: the options of a method's metadata, the registration of a typed handler, and `Methods`.
-- The reflect types of params and result are left out; a copy of a value is the value.
pub mod Listed
use golang_jsonrpc.Prelude.{
  ℕ, zero, suc, Bool, true, false, ◌||◌, ◌&&◌, List, [], ◌∷◌, ◌++◌, Option, none, some, Bytes, ℤ,
  pos, negsuc, if◌then◌else◌, ◌==◌, ltb, bytes_Eq,
}
use golang_jsonrpc.Prelude.Maps.{Map, insert}
use golang_jsonrpc.Rpc.Types.{Any, RpcMethod, Outcome}
use golang_jsonrpc.Rpc.Config.{
  Config, MethodInfo, name_only, Refusal, register_method_with, ErrorInfo, ExamplePair,
}
use golang_jsonrpc.Rpc.Typed.{Decoding, Encoding, Reply, typed}

abbrev pub MethodOption : Type 0
MethodOption = MethodInfo → MethodInfo

abbrev pub with_summary : Bytes → MethodOption
with_summary summary mi = record mi { summary = summary }

abbrev pub with_description : Bytes → MethodOption
with_description description mi = record mi { description = description }

abbrev pub with_tags : List Bytes → MethodOption
with_tags tags mi = record mi { tags = mi.tags ++ tags }

abbrev pub with_deprecated : MethodOption
with_deprecated mi = record mi { deprecated = true }

abbrev pub with_errors : List ErrorInfo → MethodOption
with_errors errs mi = record mi { errors = mi.errors ++ errs }

abbrev pub with_example : Bytes → Any → Any → MethodOption
with_example name params result mi = record mi {
  examples = mi.examples ++ record { name = name; params = params; result = result } ∷ [];
}

abbrev pub with_timeout : ℤ → MethodOption
with_timeout (pos zero) mi = mi
with_timeout (pos (suc d)) mi = record mi { timeout = pos (suc d) }
with_timeout (negsuc d) mi = mi

abbrev pub with_extra : Bytes → Any → MethodOption
with_extra key value mi = record mi { extra = insert key value mi.extra }

abbrev pub with_published_extra : Bytes → Any → MethodOption
with_published_extra key value mi = record mi {
  published_extra = insert key value mi.published_extra;
}

abbrev pub with_public : MethodOption
with_public mi = record mi { is_public = true }

unfoldable pub apply_method_options : List MethodOption → MethodInfo → MethodInfo
apply_method_options [] mi = mi
apply_method_options (opt ∷ opts) mi = apply_method_options opts (opt mi)

-- Go's `<` on strings.
unfoldable pub bytes_lt : Bytes → Bytes → Bool
bytes_lt [] [] = false
bytes_lt [] (b ∷ t) = true
bytes_lt (a ∷ s) [] = false
bytes_lt (a ∷ s) (b ∷ t) = ltb a b || (a == b && bytes_lt s t)

-- An insertion sort by name, where the code calls `sort.Slice` of the standard library: into a sorted
-- list, in front of the first name that is not smaller.
unfoldable pub insert_sorted : MethodInfo → List MethodInfo → List MethodInfo
insert_sorted mi [] = mi ∷ []
insert_sorted mi (x ∷ xs) = if bytes_lt x.name mi.name then x ∷ insert_sorted mi xs else mi ∷ x ∷ xs

unfoldable pub sort_by_name : List MethodInfo → List MethodInfo
sort_by_name [] = []
sort_by_name (x ∷ xs) = insert_sorted x (sort_by_name xs)

abbrev pub infos : Map Bytes MethodInfo → List MethodInfo
infos [] = []
infos ((name, info) ∷ m) = info ∷ infos m

module _ {C : Type 0} where
  -- `Methods`
  unfoldable pub methods : Config C → List MethodInfo
  methods c = sort_by_name (infos c.method_info)

  -- `RegisterTyped`
  unfoldable pub register_typed :
      {P R : Type 0}
      → (Bytes → Decoding P)
      → P
      → (R → Encoding)
      → Bytes
      → (C → P → Outcome (Reply R))
      → List MethodOption
      → Config C
      → Config C × Option Refusal
  register_typed decode zero_params encode name fn opts c =
      register_method_with name (typed decode zero_params encode fn)
        (apply_method_options opts (name_only name)) c
