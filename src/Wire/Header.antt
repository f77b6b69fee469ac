-- ===== src/Wire/Header.antt =====
-- One option of message_parse.go: the header that writeOptHeader writes, read by the loop of
-- unmarshalBinary.
use Prim.Native.Nat.{bit_and, bit_or}
use coap.Base.{
  ℕ, ◌+◌, ◌-◌, ◌*◌, ◌/◌, ◌%◌, ◌≤◌, ◌<◌, ◌≡◌, ◌≢◌, ◌++◌, append_assoc, length, ok, arith,
  take-append, length-append, take, drop, drop-append,
}
use coap.Base.Bits.{or_nibbles, low_nibble}
use coap.Options.{Bytes, Value, parse_option_value}
use coap.Wire.{extend_opt, write_ext, parse_ext_opt, parse_option}

-- The largest delta or length that two bytes extend to.
abbrev pub max_ext : ℕ
max_ext = 65804

pub extend_opt-lt : (n : ℕ) → (extend_opt n).0 < 15
unfolding extend_opt
extend_opt-lt n = ground arith

-- The nibble and the extension of a number are read back.
pub parse_ext_opt-extend_opt :
    (n : ℕ) (rest : Bytes)
    → n ≤ max_ext
    → parse_ext_opt (extend_opt n).0 (write_ext (extend_opt n).0 (extend_opt n).1 ++ rest)
      ≡ ok (n, rest)
unfolding extend_opt write_ext parse_ext_opt
parse_ext_opt-extend_opt n rest h = ground arith

-- The first byte of an option.
abbrev pub header_byte : ℕ → ℕ → ℕ
header_byte delta len = bit_or ((extend_opt delta).0 * 16 % 256) ((extend_opt len).0 % 256)

abbrev pub header_ext : ℕ → ℕ → Bytes
header_ext delta len =
    write_ext (extend_opt delta).0 (extend_opt delta).1
    ++ write_ext (extend_opt len).0 (extend_opt len).1

pub header_byte_lem :
    (delta len : ℕ) → header_byte delta len ≡ (extend_opt delta).0 * 16 + (extend_opt len).0
header_byte_lem delta len = omega (
  arith,
  or_nibbles (extend_opt delta).0 ((extend_opt len).0 % 256),
  extend_opt-lt delta,
  extend_opt-lt len,
)

-- It is never the payload marker.
pub header_byte-ne-marker : (delta len : ℕ) → header_byte delta len ≢ 0xff
header_byte-ne-marker delta len =
    omega (arith, header_byte_lem delta len, extend_opt-lt delta, extend_opt-lt len)

header_byte_high : (delta len : ℕ) → header_byte delta len / 16 ≡ (extend_opt delta).0
header_byte_high delta len = omega (arith, header_byte_lem delta len, extend_opt-lt len)

header_byte_low : (delta len : ℕ) → bit_and (header_byte delta len) 0x0f ≡ (extend_opt len).0
header_byte_low delta len = omega (
  arith,
  low_nibble (header_byte delta len),
  header_byte_lem delta len,
  extend_opt-lt delta,
  extend_opt-lt len,
)

-- A round of the loop, from the results of its parts.
parse_option_round :
    (h prev : ℕ) (b0 : Bytes) {delta len : ℕ} {b1 b2 : Bytes} {v : Value}
    → h / 16 < 15
    → bit_and h 0x0f < 15
    → parse_ext_opt (h / 16) b0 ≡ ok (delta, b1)
    → parse_ext_opt (bit_and h 0x0f) b1 ≡ ok (len, b2)
    → len ≤ length b2
    → parse_option_value ((prev + delta) % 256) (take len b2) ≡ ok v
    → parse_option h b0 prev ≡ ok ((prev + delta) % 256, v, drop len b2)
unfolding parse_option
parse_option_round h prev b0 hd hl e1 e2 hn ev = ground arith

-- A header for any delta, in front of the value, is read back; the number is what eight bits keep.
parse_option_number :
    (delta prev id : ℕ) (b rest : Bytes) (v : Value)
    → (prev + delta) % 256 ≡ id
    → delta ≤ max_ext
    → length b ≤ max_ext
    → parse_option_value id b ≡ ok v
    → parse_option (header_byte delta (length b)) (header_ext delta (length b) ++ (b ++ rest)) prev
      ≡ ok (id, v, rest)
parse_option_number delta prev id b rest v number hd hb hv =
    let b1 = write_ext (extend_opt (length b)).0 (extend_opt (length b)).1 ++ (b ++ rest) in
    let e1 : parse_ext_opt (header_byte delta (length b) / 16)
          (header_ext delta (length b) ++ (b ++ rest))
        ≡ ok (delta, b1) =
      rw (header_byte_high delta (length b), append_assoc) (parse_ext_opt-extend_opt delta b1 hd) in
    let e2 : parse_ext_opt (bit_and (header_byte delta (length b)) 0x0f) b1
        ≡ ok (length b, b ++ rest) =
      rw (header_byte_low delta (length b)) (parse_ext_opt-extend_opt (length b) (b ++ rest) hb) in
    let ev : parse_option_value ((prev + delta) % 256) (take (length b) (b ++ rest)) ≡ ok v =
      rw (number, take-append) hv in
    let r =
      parse_option_round (header_byte delta (length b)) prev
        (header_ext delta (length b) ++ (b ++ rest))
        (omega (arith, header_byte_high delta (length b), extend_opt-lt delta))
        (omega (arith, header_byte_low delta (length b), extend_opt-lt (length b))) e1 e2
        (omega (arith, length-append b rest)) ev in
    rw (number, drop-append) at r

-- A round of the loop reads back the option that was written, and leaves what follows it.
pub parse_option-write :
    (prev id : ℕ) (b rest : Bytes) (v : Value)
    → prev ≤ id
    → id < 256
    → length b ≤ max_ext
    → parse_option_value id b ≡ ok v
    → parse_option
        (header_byte (id - prev) (length b))
        (header_ext (id - prev) (length b) ++ (b ++ rest))
        prev
      ≡ ok (id, v, rest)
parse_option-write prev id b rest v hp hi hb hv =
    parse_option_number (id - prev) prev id b rest v (omega arith) (omega arith) hb hv

-- An option number of 256 and more comes back as its low eight bits: an option whose number is 256
-- plus `id`, written as the format says, is read as option `id` with that option's format.
pub parse_option-wraps :
    (prev id : ℕ) (b rest : Bytes) (v : Value)
    → prev < 256
    → id < 256
    → length b ≤ max_ext
    → parse_option_value id b ≡ ok v
    → parse_option
        (header_byte (256 + id - prev) (length b))
        (header_ext (256 + id - prev) (length b) ++ (b ++ rest))
        prev
      ≡ ok (id, v, rest)
parse_option-wraps prev id b rest v hp hi hb hv =
    parse_option_number (256 + id - prev) prev id b rest v (omega arith) (omega arith) hb hv
