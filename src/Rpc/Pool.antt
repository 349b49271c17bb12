-- ===== src/Rpc/Pool.antt =====
-- handle.go: the worker pool of `handleBatchRPC`. A state is the next index that the channel hands
-- out, the indexes that workers hold, and the slots `raw`. What is logged on the way is left out.
pub mod Order
pub mod Finishes
use golang_jsonrpc.Prelude.{
  ℕ, zero, suc, ◌≤◌, ◌<◌, ◌≡◌, ◌⊎◌, refl, Bool, true, false, List, [], ◌∷◌, Option, none, some, ℤ,
  pos, negsuc, if◌then◌else◌, ◌==◌, ltb, length, get_elem?, set, replicate,
}
use golang_jsonrpc.Rpc.Types.{Response, M}
use golang_jsonrpc.Rpc.Config.{Config}
use golang_jsonrpc.Rpc.Dispatch.{World}
use golang_jsonrpc.Rpc.Entries.{Entry, cons_some, handle_entry}

pub record Pool : Type 0 where
  pub next : ℕ
  pub held : List ℕ
  pub slots : List (Option Response)

-- The number of workers: all at once, if no number or a larger one is set.
unfoldable pub workers : ℤ → ℕ → ℕ
workers (pos zero) n = n
workers (pos (suc c)) n = if ltb n (suc c) then n else suc c
workers (negsuc c) n = n

-- Whether a worker holds an index.
abbrev pub In : ℕ → List ℕ → Type 0
In i [] = ⊥
In i (j ∷ js) = (j ≡ i) ⊎ In i js

-- A worker is done with an index.
unfoldable pub release : ℕ → List ℕ → List ℕ
release i [] = []
release i (j ∷ js) = if j == i then js else j ∷ release i js

abbrev pub start : ℕ → Pool
start n = record { next = 0; held = []; slots = replicate n none }

-- The filter behind `wg.Wait`.
unfoldable pub present : List (Option Response) → List Response
present [] = []
present (o ∷ os) = cons_some o (present os)

module _ {C : Type 0} (w : World C) (cfg : Config C) (ctx : C) (es : List Entry) where
  -- An idle worker takes the next index from the channel, or a worker stores the response of the
  -- entry that it holds. The workers are told apart by the indexes that they hold only: that one of
  -- them is idle is the guard that fewer indexes are held than there are workers. The channel has no
  -- buffer, so that an index is sent and taken at once.
  pub data Step : Pool → Pool → Type 0 where
    takes :
        (p : Pool)
        → length p.held < workers cfg.batch_concurrency (length es)
        → p.next < length es
        → Step p (record p { next = suc p.next; held = p.next ∷ p.held })
    stores :
        (p : Pool) (i : ℕ) (e : Entry)
        → In i p.held
        → get_elem? es i ≡ some e
        → Step p (record p {
          held = release i p.held;
          slots = set p.slots i (handle_entry w cfg ctx e).0;
        })

  pub data Run : Pool → Pool → Type 0 where
    done : (p : Pool) → Run p p
    next : {p q r : Pool} → Step p q → Run q r → Run p r

  -- The channel is closed and every worker has returned.
  pub record IsFinished (p : Pool) : Type 0 where
    pub handed_out : p.next ≡ length es
    pub idle : p.held ≡ []
