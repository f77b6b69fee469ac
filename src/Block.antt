-- ===== src/Block.antt =====
-- blockwise.go and message.go: the Block1 and Block2 options (RFC 7959) as metadata and as bytes,
-- and the methods of Message that read and set them.
pub mod Codec
pub mod Travel
use Prim.Native.Nat.{bit_and, bit_or}
use coap.Base.{
  ℕ, ◌+◌, ◌*◌, ◌/◌, ◌%◌, ◌^◌, Bool, true, false, List, [], ◌∷◌, Option, none, some, ltb, leb, ◌==◌,
  if◌then◌else◌, length, Result, ok, err, invalid_interface_type, invalid_block_length,
}
use coap.Options.{Bytes, Value, null, octets, opt_block1, opt_block2}
use coap.Message.{Message, option, remove_option, with_option}

pub record BlockMetadata : Type 0 where
  pub size : ℕ
  pub more : Bool
  pub num : ℕ

-- What the last byte says of the size: `int(math.Pow(2.0, 4.0+float64(b&0x07)))` is exact.
unfoldable pub size_bits : ℕ → ℕ
size_bits b = 2 ^ (4 + bit_and b 0x07)

unfoldable pub more_bit : ℕ → Bool
more_bit b = bit_and b 0x08 == 0x08

unfoldable pub decode_bytes : Bytes → Result (Option BlockMetadata)
decode_bytes (b0 ∷ []) =
    ok (some (record { size = size_bits b0; more = more_bit b0; num = b0 / 16 }))
decode_bytes (b0 ∷ b1 ∷ []) =
    ok (some (record { size = size_bits b1; more = more_bit b1; num = b0 * 16 + b1 / 16 }))
decode_bytes (b0 ∷ b1 ∷ b2 ∷ []) =
    ok (
      some
        (record { size = size_bits b2; more = more_bit b2; num = b0 * 4096 + b1 * 16 + b2 / 16 }))
decode_bytes _ = err invalid_block_length

-- `none` is the nil metadata.
unfoldable pub block_decode : Value → Result (Option BlockMetadata)
unfolding decode_bytes
block_decode null = ok none
block_decode (octets b) = decode_bytes b
block_decode _ = err invalid_interface_type

unfoldable pub block_init : ℕ → Bool → ℕ → BlockMetadata
block_init num more sz = record { size = sz; num = num; more = more }

unfoldable pub size_code : ℕ → ℕ
size_code sz =
    if sz == 16
    then 0
    else if sz == 32
    then 1
    else if sz == 64
    then 2
    else if sz == 128
    then 3
    else if sz == 256
    then 4
    else if sz == 512
    then 5
    else if sz == 1024
    then 6
    else if sz == 2048
    then 7
    else 0

-- The last byte: `byte((bm.Num << 4) & 0xFF)`, then `|=` with the size and the flag.
unfoldable pub last_byte : BlockMetadata → ℕ
last_byte bm =
    bit_or (bm.num * 16 % 256)
      (if bm.more then bit_or 0x08 (size_code bm.size) else size_code bm.size)

-- `Encode`. Block numbers are not negative; those of 20 bits and more lose their top bits.
unfoldable pub encode : BlockMetadata → Bytes
encode bm =
    if leb bm.num 7
    then last_byte bm ∷ []
    else if ltb bm.num 4096
    then (bm.num / 16 % 256) ∷ last_byte bm ∷ []
    else (bm.num / 4096 % 256) ∷ (bm.num / 16 % 256) ∷ last_byte bm ∷ []

-- `bm, _ := blockDecode(oi)`: an error leaves nil.
unfoldable pub block_of : Value → Option BlockMetadata
block_of v = elim (block_decode v) [ ok bm ↦ bm | _ ↦ none ]

unfoldable pub get_block : Message → ℕ → Option BlockMetadata
get_block m k = block_of (option m k)

unfoldable pub get_block1 : Message → Option BlockMetadata
unfolding get_block
get_block1 m = get_block m opt_block1

unfoldable pub get_block2 : Message → Option BlockMetadata
unfolding get_block
get_block2 m = get_block m opt_block2

unfoldable pub with_block : ℕ → Message → Option BlockMetadata → Message
with_block k m none = remove_option m k
with_block k m (some bm) = with_option m k (octets (encode bm)) true

unfoldable pub with_block1 : Message → Option BlockMetadata → Message
unfolding with_block
with_block1 = with_block opt_block1

unfoldable pub with_block2 : Message → Option BlockMetadata → Message
unfolding with_block
with_block2 = with_block opt_block2
