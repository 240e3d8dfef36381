-- ===== src/Elf/Bytes.antt =====
-- Numbers written as bytes and read back.
use native.Mathlib.Numerals.{unary_clauses}
use scarlet.Common.{
  ℕ, zero, suc, ◌*◌, ◌/◌, ◌%◌, ◌^◌, ◌<◌, ◌≡◌, refl, ap, ◌∙◌, Bool, true, false, List, [], ◌∷◌,
  arith,
}
use scarlet.Elf.{from_le_bytes, reversed, read_bytes}

-- The bytes of a number, the lowest first, and in a file's byte order.
abbrev pub le_bytes : ℕ → ℕ → List ℕ
le_bytes zero v = []
le_bytes (suc w) v = v % 256 ∷ le_bytes w (v / 256)

abbrev pub bytes : Bool → ℕ → ℕ → List ℕ
bytes true w v = le_bytes w v
bytes false w v = reversed (le_bytes w v) []

from_le_bytes-le_bytes : (w v : ℕ) → v < 256 ^ w → from_le_bytes (le_bytes w v) ≡ v
from_le_bytes-le_bytes zero v h = omega (arith, h)
from_le_bytes-le_bytes (suc w) v h =
    let within : v < 256 ^ w * 256 = simp unary_clauses at h in
    rw (from_le_bytes-le_bytes w (v / 256) (omega (arith, within))) (omega arith)

reversed-reversed : (xs ys : List ℕ) → reversed (reversed xs ys) [] ≡ reversed ys xs
reversed-reversed [] ys = refl
reversed-reversed (x ∷ xs) ys = reversed-reversed xs (x ∷ ys)

pub read_bytes-bytes :
    (little : Bool) (w v : ℕ) → v < 256 ^ w → read_bytes (bytes little w v) little ≡ v
read_bytes-bytes true w v h = from_le_bytes-le_bytes w v h
read_bytes-bytes false w v h =
    ap from_le_bytes (reversed-reversed (le_bytes w v) []) ∙ from_le_bytes-le_bytes w v h
