-- ===== src/Base/Int.antt =====
-- The 32 bits of an int, read with its sign.
use Prim.Native.Nat.{ℕ, ◌-◌, ◌^◌}
use concurrencia.Base.Tests.{ltb, if◌then◌else◌}

-- `negsuc n` is -(n + 1).
pub data ℤ : Type 0 where
  pos negsuc : ℕ → ℤ

-- An unsigned int that is passed where the parameter is an int.
abbrev pub to_int : ℕ → ℤ
to_int x = if ltb x (2 ^ 31) then pos x else negsuc (2 ^ 32 - 1 - x)
