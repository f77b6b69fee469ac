-- ===== src/Names/Codes.antt =====
-- constants.go: a code as a number and back.
use coap.Base.{ℕ, ◌+◌, ◌/◌, ◌%◌, ◌^◌, ◌<◌, ◌≡◌, [], ◌∷◌, arith}
use coap.Base.Bits.{or_class}
use coap.Base.Int.{ℤ, pos, to_uint32}
use coap.Options.{Bytes}
use coap.Message.{split}
use coap.Message.Queries.{has, split_from-pair}
use coap.Names.{two_digits, number_string, to_coap_code}

-- `ToInt` reads the decimal digits that `NumberString` writes: one, or two with a zero in front.
pub record ReadsDecimals (to_int : Bytes → ℤ) : Type 0 where
  pub one_digit : (n : ℕ) → n < 10 → to_int ((b'0' + n) ∷ []) ≡ pos n
  pub two : (n : ℕ) → n < 100 → to_int (two_digits n) ≡ pos n

split-number_string :
    (c : ℕ)
    → c < 256
    → split b'.' (number_string c) ≡ ((b'0' + c / 32) ∷ []) ∷ two_digits (c % 32) ∷ []
unfolding split number_string two_digits has
split-number_string c h =
    split_from-pair b'.' [] ((b'0' + c / 32) ∷ []) (two_digits (c % 32)) (ground arith)
      (ground arith)

-- `ToCOAPCode` reads back every code that `NumberString` wrote.
pub to_coap_code-number_string :
    (to_int : Bytes → ℤ) (c : ℕ)
    → ReadsDecimals to_int
    → c < 256
    → to_coap_code to_int (number_string c) ≡ c
unfolding to_coap_code to_uint32
to_coap_code-number_string to_int c r h =
    let upper : c / 32 % 2 ^ 32 ≡ c / 32 = omega arith in
    let lower : c % 32 % 2 ^ 32 ≡ c % 32 = omega arith in
    rw
      (
        split-number_string c h,
        r.one_digit (c / 32) (omega arith),
        r.two (c % 32) (omega arith),
        to_coap_code,
      )
      (rw (upper, lower) (or_class c h))
