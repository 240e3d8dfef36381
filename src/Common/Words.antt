-- ===== src/Common/Words.antt =====
-- The moduli of the machine's unsigned integers (`usize` is 64 bits wide on riscv64).
use Prim.Native.Nat.{ℕ, ◌^◌}

abbrev pub u16_mod : ℕ
u16_mod = 2 ^ 16

abbrev pub u32_mod : ℕ
u32_mod = 2 ^ 32

abbrev pub usize_mod : ℕ
usize_mod = 2 ^ 64
