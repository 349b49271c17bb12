-- ===== src/Tests/Pool.antt =====
-- A batch of one request, through the pool.
use golang_jsonrpc.Prelude.{
  ℕ, suc, ◌≡◌, ◌≤◌, ◌<◌, inl, refl, List, [], ◌∷◌, Option, none, some, ℤ, pos, length, set, arith,
}
use golang_jsonrpc.Rpc.Config.{Config, new}
use golang_jsonrpc.Rpc.Config.Consistent.{apply_all, apply}
use golang_jsonrpc.Rpc.Entries.{Entry, decoded, handle_entry, handle_batch_rpc}
use golang_jsonrpc.Rpc.Pool.{
  Pool, workers, release, start, present, takes, stores, Run, done, next, IsFinished,
}
use golang_jsonrpc.Rpc.Pool.Order.{Run-present}
use golang_jsonrpc.Rpc.Pool.Finishes.{Run-finishes}
use golang_jsonrpc.Tests.Fixtures.{server, world, request}

abbrev batch : List Entry
batch = decoded request ∷ []

abbrev taken : Pool
taken = record { next = 1; held = 0 ∷ []; slots = none ∷ [] }

abbrev stored : Pool
stored = record taken {
  held = release 0 (0 ∷ []);
  slots = set (none ∷ []) 0 (handle_entry world server 0 (decoded request)).0;
}

room : 0 < workers server.batch_concurrency 1
unfolding workers apply_all apply new golang_jsonrpc.Rpc.Config.set_max_message_size
    golang_jsonrpc.Rpc.Config.update golang_jsonrpc.Rpc.Config.set_max_batch_size
    golang_jsonrpc.Rpc.Config.register_method_with golang_jsonrpc.Rpc.Config.install
    golang_jsonrpc.Prelude.Maps.lookup golang_jsonrpc.Rpc.Config.compose
room = omega arith

Run-present_example : present stored.slots ≡ (handle_batch_rpc world server 0 batch).0
unfolding release
Run-present_example =
    Run-present world server 0 batch
      (next (takes (start 1) room (omega arith))
        (next (stores taken 0 (decoded request) (inl refl) refl) (done stored)))
      (record { handed_out = refl; idle = refl })

Run-finishes_example :
    (q : Pool) × Run world server 0 batch taken q
    × IsFinished world server 0 batch q
    × (present q.slots ≡ (handle_batch_rpc world server 0 batch).0)
Run-finishes_example =
    Run-finishes world server 0 batch (next (takes (start 1) room (omega arith)) (done taken))
