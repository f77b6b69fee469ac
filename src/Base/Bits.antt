-- ===== src/Base/Bits.antt =====
-- Masks and shifts on one byte as arithmetic: each law is a table that is checked by evaluation.
use Prim.Native.Nat.{ℕ, zero, suc, ◌+◌, ◌*◌, ◌/◌, ◌%◌, ◌<◌, bit_and, bit_or}
use mathlib.Core.Path.{◌≡◌, refl}
use mathlib.Core.Bool.{Bool, true, ◌&&◌}
use native.Mathlib.Omega.{arith}
use mathlib.Core.Logic.{inl, inr}
use coap.Base.Tests.{◌==◌, ==_iff, Bool-cases}

-- Two functions have the same table below a bound.
same_table : ℕ → (f g : ℕ → ℕ) → Bool
same_table zero f g = true
same_table (suc n) f g = (f n == g n) && same_table n f g

from_table : (n : ℕ) (f g : ℕ → ℕ) → same_table n f g ≡ true → (x : ℕ) → x < n → f x ≡ g x
unfolding same_table
from_table zero f g t x lt = absurd (omega arith)
from_table (suc n) f g t x lt = elim (Bool-cases (x == n)) [
  | inl e ↦ rw ((==_iff x n).0 e) (ground arith)
  | inr e ↦ from_table n f g (ground arith) x (ground arith)
]

-- The same for two arguments, row by row.
same_rows : ℕ → ℕ → (f g : ℕ → ℕ → ℕ) → Bool
same_rows zero m f g = true
same_rows (suc n) m f g = same_table m (f n) (g n) && same_rows n m f g

from_row :
    (n m : ℕ) (f g : ℕ → ℕ → ℕ)
    → same_rows n m f g ≡ true
    → (x : ℕ) → x < n
    → same_table m (f x) (g x) ≡ true
unfolding same_rows
from_row zero m f g t x lt = absurd (omega arith)
from_row (suc n) m f g t x lt = elim (Bool-cases (x == n)) [
  | inl e ↦ rw ((==_iff x n).0 e) (ground arith)
  | inr e ↦ from_row n m f g (ground arith) x (ground arith)
]

from_rows :
    (n m : ℕ) (f g : ℕ → ℕ → ℕ)
    → same_rows n m f g ≡ true
    → (x y : ℕ) → x < n
    → y < m
    → f x y ≡ g x y
from_rows n m f g t x y hx hy = from_table m (f x) (g x) (from_row n m f g t x hx) y hy

pub low_nibble : (b : ℕ) → b < 256 → bit_and b 0x0f ≡ b % 16
unfolding same_table
low_nibble = from_table 256 _ _ refl

pub low_three : (b : ℕ) → b < 256 → bit_and b 0x07 ≡ b % 8
unfolding same_table
low_three = from_table 256 _ _ refl

pub bit_three : (b : ℕ) → b < 256 → bit_and b 0x08 ≡ b / 8 % 2 * 8
unfolding same_table
bit_three = from_table 256 _ _ refl

-- Two nibbles joined by `|`.
pub or_nibbles : (d l : ℕ) → d < 16 → l < 16 → bit_or (d * 16 % 256) l ≡ d * 16 + l
unfolding same_table same_rows
or_nibbles = from_rows 16 16 _ _ refl

-- The first byte of a message: version 1, type and token length.
pub or_first_byte :
    (t k : ℕ) → t < 4 → k < 16 → bit_or (bit_or 64 (t * 16 % 256)) k ≡ 64 + t * 16 + k
unfolding same_table same_rows
or_first_byte = from_rows 4 16 _ _ refl

pub nibble_low : (b : ℕ) → b < 256 → bit_and 0x0f b ≡ b % 16
unfolding same_table
nibble_low = from_table 256 _ _ refl

pub low_two : (b : ℕ) → b < 256 → bit_and b 0x03 ≡ b % 4
unfolding same_table
low_two = from_table 256 _ _ refl

pub or_eight : (c : ℕ) → c < 8 → bit_or 0x08 c ≡ 8 + c
unfolding same_table
or_eight = from_table 8 _ _ refl

pub or_class : (c : ℕ) → c < 256 → bit_or (c / 32 * 32 % 256) (bit_and (c % 32) 0x1F) % 256 ≡ c
unfolding same_table
or_class = from_table 256 _ _ refl
