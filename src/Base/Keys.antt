-- ===== src/Base/Keys.antt =====
-- Equality of map keys, as an interface with its law.
use Prim.Native.Nat.{ℕ}
use mathlib.Core.Path.{◌≡◌}
use mathlib.Core.Logic.{◌↔◌}
use mathlib.Core.Bool.{Bool, true}
use crawlledger.Base.Tests.{◌==◌, ==_iff}
use crawlledger.Base.Strings.{Bytes, bytes_eq, bytes_eq_iff}

pub record Key (K : Type 0) : Type 0 where
  pub same : K → K → Bool
  pub same_iff : (a b : K) → (same a b ≡ true) ↔ (a ≡ b)

abbrev pub nat_same : ℕ → ℕ → Bool
nat_same a b = a == b

instance abbrev pub nat_key : Key ℕ
nat_key = record { same = nat_same; same_iff = ==_iff }

instance abbrev pub bytes_key : Key Bytes
bytes_key = record { same = bytes_eq; same_iff = bytes_eq_iff }
