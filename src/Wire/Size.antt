-- ===== src/Wire/Size.antt =====
-- headerSize of message_parse.go and PacketSize of message.go against marshalBinary.
use coap.Base.{
  List, [], ◌∷◌, ℕ, ◌+◌, ◌≡◌, refl, ok, panic, err, stuck, Result, ◌>>=◌, length, length-append,
  arith, ◌++◌,
}
use coap.Options.{Bytes, Opt}
use coap.Message.{Message}
use coap.Wire.Measure.{
  measure_opt_header, measure_options, measure_fixed, measure_marker, measure_header,
}
use coap.Wire.{
  write_opt_header, write_options, write_fixed, write_marker, write_header, sort_opts, header_size,
  marshal_binary, packet_size,
}

-- The two copies of the writing of an option's header, of the options and of the fixed bytes.
measure_opt_header-eq : (delta len : ℕ) → measure_opt_header delta len ≡ write_opt_header delta len
unfolding measure_opt_header write_opt_header
measure_opt_header-eq delta len = refl

measure_options-eq : (prev : ℕ) (os : List Opt) → measure_options prev os ≡ write_options prev os
unfolding measure_options write_options
measure_options-eq prev [] = refl
measure_options-eq prev (o ∷ os) =
    rw (measure_options-eq o.id os, measure_options, write_options) refl

measure_marker-eq : (payload : Bytes) → measure_marker payload ≡ write_marker payload
unfolding measure_marker write_marker
measure_marker-eq [] = refl
measure_marker-eq (_ ∷ _) = refl

pub measure_header-eq : (m : Message) → measure_header m ≡ write_header m
unfolding measure_header write_header measure_fixed write_fixed
measure_header-eq m = rw (measure_options-eq 0 m.opts, measure_marker-eq m.payload) refl

abbrev pub measured : Message × Bytes → Result (Message × ℕ)
measured (m, bytes) = ok (m, length bytes)

-- The buffer, once with the payload's length added and once with the payload.
abbrev add_length : Message → Message × ℕ → Result (Message × ℕ)
add_length m (m', n) = ok (m', n + length m.payload)

abbrev measure_buffer : Message → Bytes → Result (Message × ℕ)
measure_buffer m' buf = ok (m', length buf)

abbrev add_payload : Message → Message → Bytes → Result (Message × Bytes)
add_payload m m' buf = ok (m', buf ++ m.payload)

sized :
    (m m' : Message) (r : Result Bytes)
    → ((r >>= measure_buffer m') >>= add_length m) ≡ ((r >>= add_payload m m') >>= measured)
sized m m' (ok buf) = rw length-append
sized m m' (err e) = refl
sized m m' panic = refl
sized m m' stuck = refl

-- On a message that was not read from a datagram, `PacketSize` is the length of what
-- `marshalBinary` writes, it leaves the same message behind, and it panics exactly where
-- `marshalBinary` does.
pub packet_size-marshal :
    (m : Message) → m.packet_size ≡ 0 → packet_size m ≡ (marshal_binary m >>= measured)
unfolding packet_size header_size marshal_binary
packet_size-marshal m h =
    ground
      (arith, measure_header-eq (sort_opts m), sized m (sort_opts m) (write_header (sort_opts m)))
