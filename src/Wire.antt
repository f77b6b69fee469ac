-- ===== src/Wire.antt =====
-- message_parse.go: headerSize, marshalBinary and unmarshalBinary.
-- Bytes are numbers below 256; `uint8`, `byte` and `uint16` conversions are written as `%`.
pub mod Codes
pub mod Measure
pub mod Header
pub mod RoundTrip
pub mod Size
pub mod Safety
use Prim.Native.Nat.{bit_and, bit_or}
use coap.Base.{
  ℕ, zero, suc, ◌+◌, ◌-◌, ◌*◌, ◌/◌, ◌%◌, Bool, true, false, ◌||◌, List, [], ◌∷◌, ◌++◌, ltb, leb,
  ◌==◌, if◌then◌else◌, length, take, drop, replicate, Result, ok, err, panic, stuck, ◌>>=◌, ◌>>◌,
  guard, or_panic, short_packet, invalid_version, invalid_token_len, truncated,
  unexpected_ext_marker, not,
}
use coap.Options.{
  Bytes, Value, null, Opt, to_bytes, put_uint16, big_endian, parse_option_value, stable_sort,
}
use coap.Message.{Message}
use coap.Wire.Codes.{
  ext_opt_byte_code, ext_opt_byte_addend, ext_opt_word_code, ext_opt_word_addend, ext_opt_error,
}
use coap.Wire.Measure.{measure_header}

-- `extendOpt`: the nibble, and what its extension holds.
unfoldable pub extend_opt : ℕ → ℕ × ℕ
extend_opt opt =
    if leb ext_opt_byte_addend opt
    then (if leb ext_opt_word_addend opt
        then (ext_opt_word_code, opt - ext_opt_word_addend)
        else (ext_opt_byte_code, opt - ext_opt_byte_addend))
    else (opt, 0)

unfoldable pub write_ext : ℕ → ℕ → Bytes
unfolding put_uint16
write_ext opt ext =
    if opt == ext_opt_byte_code
    then (ext % 256) ∷ []
    else if opt == ext_opt_word_code
    then put_uint16 (ext % 65536)
    else []

unfoldable pub write_opt_header : ℕ → ℕ → Bytes
unfolding extend_opt write_ext
write_opt_header delta len =
    let (d, dx) = extend_opt delta in
    let (l, lx) = extend_opt len in
    bit_or (d * 16 % 256) (l % 256) ∷ (write_ext d dx ++ write_ext l lx)

-- The loop over the sorted options. The numbers do not fall, so `int(o.ID)-prev` is no negative
-- number and the truncated `-` is exact. `panic` is the panic of `toBytes`.
unfoldable pub write_options : ℕ → List Opt → Result Bytes
unfolding write_opt_header to_bytes
write_options prev [] = ok []
write_options prev (o ∷ os) = do
  b ← or_panic (to_bytes o)
  rest ← write_options o.id os
  ok (write_opt_header (o.id - prev) (length b) ++ (b ++ rest))

-- The four fixed bytes and the token.
unfoldable pub write_fixed : Message → Bytes
unfolding put_uint16
write_fixed m =
    bit_or (bit_or 64 (m.type * 16 % 256)) (bit_and 0x0f (length m.token))
    ∷ (m.code % 256)
    ∷ (put_uint16 m.message_id ++ m.token)

-- `if len(m.Payload) > 0`
unfoldable pub write_marker : Bytes → Bytes
write_marker [] = []
write_marker (_ ∷ _) = 0xff ∷ []

-- The buffer of `marshalBinary` in front of the payload.
unfoldable pub write_header : Message → Result Bytes
write_header m = do
  os ← write_options 0 m.opts
  ok (write_fixed m ++ (os ++ write_marker m.payload))

-- `sort.Stable(&m.opts)` stays behind in the message.
unfoldable pub sort_opts : Message → Message
sort_opts m = record m { opts = stable_sort m.opts }

unfoldable pub header_size : Message → Result (Message × ℕ)
unfolding sort_opts measure_header
header_size m = do buf ← measure_header (sort_opts m); ok (sort_opts m, length buf)

unfoldable pub marshal_binary : Message → Result (Message × Bytes)
unfolding sort_opts write_header
marshal_binary m = do buf ← write_header (sort_opts m); ok (sort_opts m, buf ++ m.payload)

-- `PacketSize` of message.go: the size of the datagram that was read, or else of the one to write.
unfoldable pub packet_size : Message → Result (Message × ℕ)
unfolding header_size
packet_size m =
    if m.packet_size == 0
    then (do (m', n) ← header_size m; ok (m', n + length m.payload))
    else ok (m, m.packet_size)

-- `parseExtOpt`, with the bytes `b` that are left before and after.
unfoldable pub parse_ext_byte : Bytes → Result (ℕ × Bytes)
parse_ext_byte [] = err truncated
parse_ext_byte (x ∷ b) = ok (x + ext_opt_byte_addend, b)

unfoldable pub parse_ext_word : Bytes → Result (ℕ × Bytes)
unfolding big_endian
parse_ext_word (x ∷ y ∷ b) = ok (big_endian (x ∷ y ∷ []) + ext_opt_word_addend, b)
parse_ext_word _ = err truncated

unfoldable pub parse_ext_opt : ℕ → Bytes → Result (ℕ × Bytes)
unfolding parse_ext_byte parse_ext_word
parse_ext_opt opt b =
    if opt == ext_opt_byte_code
    then parse_ext_byte b
    else if opt == ext_opt_word_code
    then parse_ext_word b
    else ok (opt, b)

-- One round of the loop of `unmarshalBinary` behind the test for the payload marker: the option's
-- number, its value or nil, and the bytes that are left. `OptionID` keeps 8 bits of the number.
unfoldable pub parse_option : ℕ → Bytes → ℕ → Result (ℕ × Value × Bytes)
parse_option h b prev = do
  guard (not (h / 16 == ext_opt_error || bit_and h 0x0f == ext_opt_error)) unexpected_ext_marker
  (delta, b) ← parse_ext_opt (h / 16) b
  (len, b) ← parse_ext_opt (bit_and h 0x0f) b
  guard (leb len (length b)) truncated
  let oid = (prev + delta) % 256
  v ← parse_option_value oid (take len b)
  ok (oid, v, drop len b)

-- `if opval != nil { m.opts = append(m.opts, …) }`
unfoldable pub append_option : List Opt → ℕ → Value → List Opt
append_option opts oid null = opts
append_option opts oid v = opts ++ (record { id = oid; value = v } ∷ [])

abbrev resume :
    List Opt
    → Result (ℕ × Value × Bytes)
    → (ℕ × Value × Bytes → List Opt × Result Bytes)
    → List Opt × Result Bytes
resume opts (ok r) k = k r
resume opts (err e) k = (opts, err e)
resume opts panic k = (opts, panic)
resume opts stuck k = (opts, stuck)

-- The loop: the options so far, and the payload or the error. Each round takes a byte at least, so
-- the length of the input is fuel enough.
unfoldable pub parse_options : ℕ → Bytes → ℕ → List Opt → List Opt × Result Bytes
unfolding append_option
parse_options fuel [] prev opts = (opts, ok [])
parse_options zero (h ∷ b) prev opts = (opts, stuck)
parse_options (suc fuel) (h ∷ b) prev opts =
    let round =
      resume opts (parse_option h b prev)
        λ r. parse_options fuel r.2 r.0 (append_option opts r.0 r.1) in
    if h == 0xff then (opts, ok b) else round

abbrev finish : Message → List Opt × Result Bytes → Message × Result (Unit {0})
finish m (opts, ok b) = (record m { opts = opts; payload = b }, ok tt)
finish m (opts, err e) = (record m { opts = opts }, err e)
finish m (opts, panic) = (record m { opts = opts }, panic)
finish m (opts, stuck) = (record m { opts = opts }, stuck)

-- What follows the fixed bytes: the token, the options and the payload.
unfoldable pub parse_body : Message → ℕ → Bytes → Message × Result (Unit {0})
unfolding parse_options
parse_body m token_len rest =
    let m' = record m { token = if token_len == 0 then m.token else take token_len rest } in
    let b = drop token_len rest in
    if ltb (length rest) token_len
    then (record m { token = replicate token_len 0 }, err truncated)
    else finish m' (parse_options (length b) b 0 m.opts)

unfoldable pub parse_fixed : Message → Bytes → Message × Result (Unit {0})
unfolding big_endian
parse_fixed m (b0 ∷ b1 ∷ b2 ∷ b3 ∷ rest) =
    let typed = record m { type = bit_and (b0 / 16) 0x03 } in
    let token_len = bit_and b0 0x0f in
    let full = record typed { code = b1; message_id = big_endian (b2 ∷ b3 ∷ []) } in
    if b0 / 64 == 1
    then (if ltb 8 token_len
        then (typed, err invalid_token_len)
        else parse_body full token_len rest)
    else (m, err invalid_version)
parse_fixed m _ = (m, err short_packet)

-- The message as the call leaves it, and its error; `ok tt` is the nil error.
unfoldable pub unmarshal_binary : Message → Bytes → Message × Result (Unit {0})
unfolding parse_fixed
unmarshal_binary m bytes = parse_fixed (record m { packet_size = length bytes }) bytes
