-- ===== src/Wire/RoundTrip.antt =====
-- message_parse.go: unmarshalBinary on what marshalBinary wrote.
use Prim.Native.Nat.{bit_and, bit_or}
use coap.Base.{
  ℕ, zero, suc, ◌+◌, ◌-◌, ◌*◌, ◌/◌, ◌%◌, ◌≤◌, ◌<◌, ◌≡◌, ◌≢◌, refl, ap, ◌∙◌, List, [], ◌∷◌, ◌++◌,
  append_assoc, length, ok, arith, take-append, drop-append, All, some, append-nil, length-append,
}
use coap.Base.Bits.{or_first_byte, low_nibble, nibble_low, low_two}
use coap.Options.{Bytes, Value, Opt, put_uint16, big_endian, stable_sort, to_bytes}
use coap.Options.Values.{IsCanonical, parse_option_value-to_bytes}
use coap.Options.Order.{IsSortedFrom, stable_sort-IsSortedFrom, stable_sort-All}
use coap.Message.{Message, new_message}
use coap.Wire.{
  write_options, write_opt_header, write_marker, write_fixed, write_header, sort_opts,
  marshal_binary, parse_option, append_option, parse_options, parse_body, parse_fixed,
  unmarshal_binary,
}
use coap.Wire.Header.{header_byte, header_ext, header_byte-ne-marker, parse_option-write}

abbrev pub IsWritable : Opt → Type 0
IsWritable o = (o.id < 256) × IsCanonical o

parse_options_step :
    (fuel h : ℕ) (b : Bytes) (prev : ℕ) (opts : List Opt) {id : ℕ} {v : Value} {rest : Bytes}
    → h ≢ 0xff
    → parse_option h b prev ≡ ok (id, v, rest)
    → parse_options (suc fuel) (h ∷ b) prev opts
      ≡ parse_options fuel rest id (append_option opts id v)
unfolding parse_options
parse_options_step fuel h b prev opts ne e = ground arith

append_option-canonical :
    (opts : List Opt) (o : Opt) → IsCanonical o → append_option opts o.id o.value ≡ opts ++ (o ∷ [])
unfolding append_option
append_option-canonical opts o h = ground arith

-- The payload marker and the payload end the loop.
abbrev trailer : Bytes → Bytes
trailer payload = write_marker payload ++ payload

parse_options-trailer :
    (fuel : ℕ) (payload : Bytes) (prev : ℕ) (acc : List Opt)
    → length (trailer payload) ≤ fuel
    → parse_options fuel (trailer payload) prev acc ≡ (acc, ok payload)
unfolding parse_options write_marker
parse_options-trailer fuel [] prev acc h = refl
parse_options-trailer zero (x ∷ xs) prev acc h = absurd (omega arith)
parse_options-trailer (suc fuel) (x ∷ xs) prev acc h = refl

-- What the loop over the options reads back from what the loop over the options wrote.
ReadsBack : ℕ → List Opt → Bytes → Type 0
ReadsBack prev os buf =
    (fuel : ℕ) (acc : List Opt) (payload : Bytes)
    → length (buf ++ trailer payload) ≤ fuel
    → parse_options fuel (buf ++ trailer payload) prev acc ≡ (acc ++ os, ok payload)

ReadsBack-cons :
    (prev : ℕ) (o : Opt) (os : List Opt) (b rest : Bytes)
    → IsCanonical o
    → ((tail : Bytes)
        → parse_option
            (header_byte (o.id - prev) (length b))
            (header_ext (o.id - prev) (length b) ++ (b ++ tail))
            prev
          ≡ ok (o.id, o.value, tail))
    → ReadsBack o.id os rest
    → ReadsBack prev (o ∷ os) (write_opt_header (o.id - prev) (length b) ++ (b ++ rest))
unfolding ReadsBack write_opt_header
ReadsBack-cons prev o os b rest hc e ih zero acc payload h = absurd (omega arith)
ReadsBack-cons prev o os b rest hc e ih (suc fuel) acc payload h =
    let tail = rest ++ trailer payload in
    let ext = header_ext (o.id - prev) (length b) in
    let regroup : (ext ++ (b ++ rest)) ++ trailer payload ≡ ext ++ (b ++ tail) =
      rw (append_assoc ext (b ++ rest) (trailer payload), append_assoc b rest (trailer payload)) in
    let fits : length tail ≤ fuel = omega (
      arith,
      length-append (ext ++ (b ++ rest)) (trailer payload),
      length-append ext (b ++ rest),
      length-append b rest,
      length-append rest (trailer payload),
    ) in
    let round =
      parse_options_step fuel _ (ext ++ (b ++ tail)) prev acc
        (header_byte-ne-marker (o.id - prev) (length b)) (e tail) in
    rw (
      regroup,
      round,
      append_option-canonical acc o hc,
      ih fuel (acc ++ (o ∷ [])) payload fits,
      append_assoc acc (o ∷ []) os,
    )

write_options-cons :
    (prev : ℕ) (o : Opt) (os : List Opt) {b rest : Bytes}
    → to_bytes o ≡ some b
    → write_options o.id os ≡ ok rest
    → write_options prev (o ∷ os) ≡ ok (write_opt_header (o.id - prev) (length b) ++ (b ++ rest))
unfolding write_options
write_options-cons prev o os e er = rw (e, er)

-- Sorted, canonical options are written without a panic, and read back whatever payload follows.
write_options-ReadsBack :
    (prev : ℕ) (os : List Opt)
    → IsSortedFrom prev os
    → All IsWritable os
    → (buf : Bytes) × (write_options prev os ≡ ok buf) × ReadsBack prev os buf
write_options-ReadsBack prev [] s h = (
  [],
  unfold write_options in refl,
  unfold ReadsBack in
      λ fuel acc payload hf. parse_options-trailer fuel payload prev acc hf ∙ rw append-nil,
)
write_options-ReadsBack prev (o ∷ os) (le, s) ((small, hc), h) =
    let (b, eb, ev, lb) = parse_option_value-to_bytes o hc in
    let (rest, er, ih) = write_options-ReadsBack o.id os s h in
    (
      write_opt_header (o.id - prev) (length b) ++ (b ++ rest),
      write_options-cons prev o os eb er,
      ReadsBack-cons prev o os b rest hc
          (λ tail. parse_option-write prev o.id b tail o.value le small (omega arith) ev) ih,
    )

-- A message that the wire format can hold.
pub record IsWellFormed (m : Message) : Type 0 where
  pub type_bits : m.type < 4
  pub code_byte : m.code < 256
  pub message_id_word : m.message_id < 65536
  pub token_short : length m.token ≤ 8
  pub opts_writable : All IsWritable m.opts

-- The first byte, taken apart.
first_byte :
    (t k : ℕ)
    → t < 4
    → k ≤ 8
    → let b = bit_or (bit_or 64 (t * 16 % 256)) (bit_and 0x0f k) in
      (b / 64 ≡ 1) × (bit_and (b / 16) 0x03 ≡ t) × (bit_and b 0x0f ≡ k)
first_byte t k ht hk =
    let e : bit_or (bit_or 64 (t * 16 % 256)) (bit_and 0x0f k) ≡ 64 + t * 16 + k =
      rw (nibble_low k (omega arith)) (omega (arith, or_first_byte t (k % 16))) in
    rw e (
      omega arith,
      omega (arith, low_two ((64 + t * 16 + k) / 16)),
      omega (arith, low_nibble (64 + t * 16 + k)),
    )

-- The token is cut off at its length.
parse_body-write :
    (m : Message) (token buf payload : Bytes) (os : List Opt)
    → m.token ≡ []
    → m.opts ≡ []
    → ReadsBack 0 os buf
    → parse_body m (length token) (token ++ (buf ++ trailer payload))
      ≡ (record m { token = token; opts = os; payload = payload }, ok tt)
unfolding parse_body ReadsBack
parse_body-write m token buf payload os et eo back =
    let rest = buf ++ trailer payload in
    ground (
      arith,
      take-append token rest,
      drop-append token rest,
      length-append token rest,
      back (length rest) [] payload,
    )

-- The message that a well-formed message comes back as: its options sorted, its size recorded, and
-- nothing of what does not travel.
abbrev pub received : Message → Bytes → Message
received m bytes = record new_message {
  type = m.type;
  code = m.code;
  message_id = m.message_id;
  token = m.token;
  payload = m.payload;
  packet_size = length bytes;
  opts = stable_sort m.opts;
}

unmarshal_binary-write :
    (m : Message) (buf : Bytes)
    → IsWellFormed m
    → ReadsBack 0 (stable_sort m.opts) buf
    → let bytes = write_fixed m ++ (buf ++ trailer m.payload) in
      unmarshal_binary new_message bytes ≡ (received m bytes, ok tt)
unfolding unmarshal_binary parse_fixed write_fixed put_uint16 big_endian
unmarshal_binary-write m buf h back =
    let body = m.token ++ (buf ++ trailer m.payload) in
    let n = record new_message {
      type = m.type;
      code = m.code;
      message_id = m.message_id;
      packet_size = 4 + length body;
    } in
    ground (
      arith,
      first_byte m.type (length m.token) h.type_bits h.token_short,
      parse_body-write n m.token buf m.payload (stable_sort m.opts) refl refl back,
    )

-- What the buffer of `marshalBinary` and the payload come to, with the payload's part joined.
marshal_binary-write :
    (m : Message) {buf : Bytes}
    → write_options 0 (stable_sort m.opts) ≡ ok buf
    → marshal_binary m ≡ ok (sort_opts m, write_fixed m ++ (buf ++ trailer m.payload))
unfolding marshal_binary write_header sort_opts write_fixed
marshal_binary-write m {buf} e = rw e (
    ap (λ (bytes : Bytes). ok (sort_opts m, bytes))
      (append_assoc (write_fixed m) (buf ++ write_marker m.payload) m.payload
        ∙ ap (λ (rest : Bytes). write_fixed m ++ rest)
            (append_assoc buf (write_marker m.payload) m.payload)))

-- Every well-formed message is marshalled without a panic, and unmarshalling the bytes into a new
-- message gives no error and the same type, code, message id, token and payload, with the options in
-- the order of their numbers.
pub unmarshal-marshal :
    (m : Message)
    → IsWellFormed m
    → (bytes : Bytes) × (marshal_binary m ≡ ok (sort_opts m, bytes))
      × (unmarshal_binary new_message bytes ≡ (received m bytes, ok tt))
unmarshal-marshal m h =
    let (buf, e, back) =
      write_options-ReadsBack 0 (stable_sort m.opts) (stable_sort-IsSortedFrom m.opts)
        (stable_sort-All IsWritable m.opts h.opts_writable) in
    (
      write_fixed m ++ (buf ++ trailer m.payload),
      marshal_binary-write m e,
      unmarshal_binary-write m buf h back,
    )
