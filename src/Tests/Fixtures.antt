-- ===== src/Tests/Fixtures.antt =====
-- A server with one method, its surroundings, and requests to it.
use golang_jsonrpc.Prelude.{true, ℕ, List, [], ◌∷◌, ◌++◌, none, some, Bytes, codes, pos}
use golang_jsonrpc.Rpc.Types.{Request, RpcMethod, Middleware, returned, version_2_0}
use golang_jsonrpc.Rpc.Config.{Config, new, name_only}
use golang_jsonrpc.Rpc.Config.Consistent.{
  Operation, method_op, max_batch_size_op, max_message_size_op, apply_all, IsConsistent,
  apply_all-new-IsConsistent,
}
use golang_jsonrpc.Rpc.Dispatch.{World, alive}
use golang_jsonrpc.Rpc.Wire.{Codec}

-- It answers with its params.
abbrev pub echo : RpcMethod ℕ
echo ctx params = returned (record { result = params; code = pos 0; err = none })

abbrev pub no_params : Middleware ℕ
no_params name h ctx params = h ctx none

abbrev pub echo_name : Bytes
echo_name = codes "echo"

abbrev pub operations : List (Operation ℕ)
operations =
    method_op echo_name echo (name_only echo_name)
    ∷ max_batch_size_op (pos 2)
    ∷ max_message_size_op (pos 100)
    ∷ []

abbrev pub server : Config ℕ
server = apply_all operations (new 4)

pub server-IsConsistent : IsConsistent server
server-IsConsistent = apply_all-new-IsConsistent 4 operations

abbrev pub world : World ℕ
world = record {
  with_timeout = λ c t. c;
  ctx_err = λ t c r. alive;
  selected = λ t c r. none;
  is_ready = λ t c r. true;
  elapsed = λ c r. 7;
  quote = λ s. b'"' ∷ (s ++ b'"' ∷ []);
}

abbrev pub request : Request
request = record {
  version = version_2_0;
  method = echo_name;
  params = some (codes "[1]");
  id = some (codes "1");
}

abbrev pub notification : Request
notification = record request { id = none }

-- Strings as they are, every number as 0, and nothing that can be decoded.
abbrev pub codec : Codec
codec = record {
  string_text = λ s. b'"' ∷ (s ++ b'"' ∷ []);
  int_text = λ n. codes "0";
  decode_request = λ s. none;
}
