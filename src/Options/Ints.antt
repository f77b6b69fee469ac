-- ===== src/Options/Ints.antt =====
-- encodeInt and decodeInt of message_options.go undo each other.
use coap.Base.{ℕ, ◌^◌, ◌<◌, ◌≡◌, some, arith}
use coap.Options.{encode_int, decode_int}

-- `decodeInt` reads back every uint32 that `encodeInt` wrote.
pub decode_int-encode_int : (v : ℕ) → v < 2 ^ 32 → decode_int (encode_int v) ≡ some v
unfolding encode_int decode_int
decode_int-encode_int v h = ground arith
