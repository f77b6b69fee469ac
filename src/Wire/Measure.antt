-- ===== src/Wire/Measure.antt =====
-- message_parse.go: the buffer of headerSize, which has its own copy of what marshalBinary writes.
use Prim.Native.Nat.{bit_and, bit_or}
use coap.Base.{
  ℕ, ◌-◌, ◌*◌, ◌%◌, List, [], ◌∷◌, ◌++◌, leb, ◌==◌, if◌then◌else◌, length, Result, ok, ◌>>=◌,
  or_panic,
}
use coap.Options.{Bytes, Opt, to_bytes, put_uint16}
use coap.Message.{Message}
use coap.Wire.Codes.{ext_opt_byte_code, ext_opt_byte_addend, ext_opt_word_code, ext_opt_word_addend}

-- `extendOpt`: the nibble, and what its extension holds.
unfoldable pub measure_extend_opt : ℕ → ℕ × ℕ
measure_extend_opt opt =
    if leb ext_opt_byte_addend opt
    then (if leb ext_opt_word_addend opt
        then (ext_opt_word_code, opt - ext_opt_word_addend)
        else (ext_opt_byte_code, opt - ext_opt_byte_addend))
    else (opt, 0)

unfoldable pub measure_ext : ℕ → ℕ → Bytes
unfolding put_uint16
measure_ext opt ext =
    if opt == ext_opt_byte_code
    then (ext % 256) ∷ []
    else if opt == ext_opt_word_code
    then put_uint16 (ext % 65536)
    else []

unfoldable pub measure_opt_header : ℕ → ℕ → Bytes
unfolding measure_extend_opt measure_ext
measure_opt_header delta len =
    let (d, dx) = measure_extend_opt delta in
    let (l, lx) = measure_extend_opt len in
    bit_or (d * 16 % 256) (l % 256) ∷ (measure_ext d dx ++ measure_ext l lx)

-- The loop over the sorted options. The numbers do not fall, so `int(o.ID)-prev` is no negative
-- number and the truncated `-` is exact. `panic` is the panic of `toBytes`.
unfoldable pub measure_options : ℕ → List Opt → Result Bytes
unfolding measure_opt_header to_bytes
measure_options prev [] = ok []
measure_options prev (o ∷ os) = do
  b ← or_panic (to_bytes o)
  rest ← measure_options o.id os
  ok (measure_opt_header (o.id - prev) (length b) ++ (b ++ rest))

-- The four fixed bytes and the token.
unfoldable pub measure_fixed : Message → Bytes
unfolding put_uint16
measure_fixed m =
    bit_or (bit_or 64 (m.type * 16 % 256)) (bit_and 0x0f (length m.token))
    ∷ (m.code % 256)
    ∷ (put_uint16 m.message_id ++ m.token)

-- `if len(m.Payload) > 0`
unfoldable pub measure_marker : Bytes → Bytes
measure_marker [] = []
measure_marker (_ ∷ _) = 0xff ∷ []

-- The buffer whose length `headerSize` returns.
unfoldable pub measure_header : Message → Result Bytes
measure_header m = do
  os ← measure_options 0 m.opts
  ok (measure_fixed m ++ (os ++ measure_marker m.payload))
