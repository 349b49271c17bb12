-- ===== src/Prelude/Eq.antt =====
-- Decidable equality of keys as an instance.
use Prim.Native.Nat.{ℕ}
use mathlib.Core.Path.{◌≡◌, refl}
use mathlib.Core.Logic.{◌↔◌}
use mathlib.Core.Bool.{Bool, true}
use golang_jsonrpc.Prelude.Tests.{◌==◌, ==_iff}
use golang_jsonrpc.Prelude.Int.{ℤ, int_eq, int_eq_iff}
use golang_jsonrpc.Prelude.Lists.{Bytes, bytes_eq, bytes_eq_iff}

pub record Eq {ℓ} (A : Type ℓ) : Type ℓ where
  pub beq : A → A → Bool
  pub beq_iff : (a b : A) → (beq a b ≡ true) ↔ (a ≡ b)

instance abbrev pub nat_Eq : Eq ℕ
nat_Eq = record { beq = ◌==◌; beq_iff = ==_iff }

instance abbrev pub int_Eq : Eq ℤ
int_Eq = record { beq = int_eq; beq_iff = int_eq_iff }

instance abbrev pub bytes_Eq : Eq Bytes
bytes_Eq = record { beq = bytes_eq; beq_iff = bytes_eq_iff }

pub beq_self {ℓ} : {A : Type ℓ} (e : Eq A) (a : A) → e.beq a a ≡ true
beq_self e a = (e.beq_iff a a).1 refl
