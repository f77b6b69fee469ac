-- ===== src/Block/Codec.antt =====
-- Encode and blockDecode of blockwise.go undo each other, as far as the format reaches.
use Prim.Native.Nat.{bit_and}
use coap.Base.{
  ℕ, ◌+◌, ◌*◌, ◌/◌, ◌%◌, ◌^◌, ◌<◌, ◌≤◌, ◌≡◌, refl, ap, ◌∙◌, Bool, [], ◌∷◌, some, if◌then◌else◌,
  length, ok, arith, ◌⊎◌, ◌↔◌, All, IsByte, zero, suc,
}
use coap.Base.Bits.{or_eight, or_nibbles, low_three, bit_three}
use coap.Options.{Bytes, octets}
use coap.Block.{BlockMetadata, size_bits, more_bit, block_decode, size_code, last_byte, encode}

-- The flag and the size code share the low nibble.
abbrev low_half : Bool → ℕ → ℕ
low_half m c = if m then 8 + c else c

size_code-lt : (sz : ℕ) → size_code sz < 8
unfolding size_code
size_code-lt sz = ground arith

last_byte_lem :
    (bm : BlockMetadata) → last_byte bm ≡ bm.num % 16 * 16 + low_half bm.more (size_code bm.size)
unfolding last_byte
last_byte_lem bm =
    let shifted : bm.num * 16 % 256 ≡ bm.num % 16 * 16 % 256 = omega arith in
    rw shifted (
      ground (
        arith,
        size_code-lt bm.size,
        or_eight (size_code bm.size),
        or_nibbles (bm.num % 16) (size_code bm.size),
        or_nibbles (bm.num % 16) (8 + size_code bm.size),
      ))

-- The size that the three bits stand for.
abbrev pub coded_size : ℕ → ℕ
coded_size sz = 2 ^ (4 + size_code sz)

last_byte_size : (bm : BlockMetadata) → size_bits (last_byte bm) ≡ coded_size bm.size
unfolding size_bits
last_byte_size bm =
    ap (λ (c : ℕ). 2 ^ (4 + c))
      (ground (arith, last_byte_lem bm, size_code-lt bm.size, low_three (last_byte bm)))

last_byte_more : (bm : BlockMetadata) → more_bit (last_byte bm) ≡ bm.more
unfolding more_bit
last_byte_more bm = ground (arith, last_byte_lem bm, size_code-lt bm.size, bit_three (last_byte bm))

last_byte_num : (bm : BlockMetadata) → last_byte bm / 16 ≡ bm.num % 16
last_byte_num bm = ground (arith, last_byte_lem bm, size_code-lt bm.size)

-- What is left of metadata on the wire: 20 bits of the number, and a size of the eight.
abbrev pub on_wire : BlockMetadata → BlockMetadata
on_wire bm = record bm { size = coded_size bm.size; num = bm.num % 2 ^ 20 }

-- Decoding what `Encode` wrote gives the flag, the number's low 20 bits, and the size, which is
-- replaced by 16 if it is none of the eight powers of two from 16 to 2048.
pub block_decode-encode :
    (bm : BlockMetadata) → block_decode (octets (encode bm)) ≡ ok (some (on_wire bm))
unfolding block_decode encode
block_decode-encode bm = ground (arith, last_byte_size bm, last_byte_more bm, last_byte_num bm)

-- The sizes that the format has.
abbrev pub IsBlockSize : ℕ → Type 0
IsBlockSize sz = coded_size sz ≡ sz

pub coded_size_cases :
    (sz : ℕ)
    → IsBlockSize sz ↔ (
        (sz ≡ 16)
        ⊎ (sz ≡ 32)
        ⊎ (sz ≡ 64)
        ⊎ (sz ≡ 128)
        ⊎ (sz ≡ 256)
        ⊎ (sz ≡ 512)
        ⊎ (sz ≡ 1024)
        ⊎ (sz ≡ 2048))
unfolding size_code
coded_size_cases sz = (λ h. ground arith, λ h. ground arith)

pub on_wire_exact : (bm : BlockMetadata) → IsBlockSize bm.size → bm.num < 2 ^ 20 → on_wire bm ≡ bm
on_wire_exact bm hs hn = ground arith

-- Decoding what `Encode` wrote gives back all of a number of 20 bits and of a size of the format.
block_decode-encode_exact :
    (bm : BlockMetadata)
    → IsBlockSize bm.size
    → bm.num < 2 ^ 20
    → block_decode (octets (encode bm)) ≡ ok (some bm)
block_decode-encode_exact bm hs hn =
    block_decode-encode bm ∙ ap (λ b. ok (some b)) (on_wire_exact bm hs hn)

power-IsBlockSize : (c : ℕ) → c < 8 → IsBlockSize (2 ^ (4 + c))
unfolding size_code
power-IsBlockSize zero h = refl
power-IsBlockSize (suc zero) h = refl
power-IsBlockSize (suc (suc zero)) h = refl
power-IsBlockSize (suc (suc (suc zero))) h = refl
power-IsBlockSize (suc (suc (suc (suc zero)))) h = refl
power-IsBlockSize (suc (suc (suc (suc (suc zero))))) h = refl
power-IsBlockSize (suc (suc (suc (suc (suc (suc zero)))))) h = refl
power-IsBlockSize (suc (suc (suc (suc (suc (suc (suc zero))))))) h = refl
power-IsBlockSize (suc (suc (suc (suc (suc (suc (suc (suc c)))))))) h = absurd (omega arith)

size_bits-IsBlockSize : (b : ℕ) → b < 256 → IsBlockSize (size_bits b)
unfolding size_bits
size_bits-IsBlockSize b h = power-IsBlockSize (bit_and b 0x07) (omega (arith, low_three b))

-- What metadata the bytes of an option decode to: a size of the format and a number of 20 bits.
decode_bytes-shape :
    (b : Bytes) (bm : BlockMetadata)
    → All IsByte b
    → block_decode (octets b) ≡ ok (some bm)
    → IsBlockSize bm.size × (bm.num < 2 ^ 20)
unfolding block_decode
decode_bytes-shape [] bm h e = cc
decode_bytes-shape (b0 ∷ []) bm h e = ground (arith, size_bits-IsBlockSize b0)
decode_bytes-shape (b0 ∷ b1 ∷ []) bm h e = ground (arith, size_bits-IsBlockSize b1)
decode_bytes-shape (b0 ∷ b1 ∷ b2 ∷ []) bm h e = ground (arith, size_bits-IsBlockSize b2)
decode_bytes-shape (b0 ∷ b1 ∷ b2 ∷ b3 ∷ b) bm h e = cc

pub length-encode : (bm : BlockMetadata) → (1 ≤ length (encode bm)) × (length (encode bm) ≤ 3)
unfolding encode
length-encode bm = ground arith
