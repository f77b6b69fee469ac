-- ===== src/Tests/Wire.antt =====
-- message_parse.go at concrete messages and bytes.
use coap.Base.{
  ◌+◌, ◌-◌, ◌≡◌, refl, [], ◌∷◌, ◌++◌, ok, err, arith, truncated, invalid_version, ◌>>=◌,
}
use coap.Options.{Bytes, text, option_def, parse_option_value, parse_as, stable_sort}
use coap.Message.{new_message}
use coap.Wire.{
  write_options, write_fixed, write_marker, sort_opts, marshal_binary, packet_size, parse_option,
  parse_body, unmarshal_binary,
}
use coap.Wire.Header.{header_byte, header_ext, parse_option-wraps}
use coap.Wire.RoundTrip.{received, unmarshal-marshal}
use coap.Tests.Samples.{sample, sample-IsWellFormed}
use coap.Wire.Size.{measured, packet_size-marshal}

marshal_sample :
    marshal_binary sample
    ≡ ok (
      sort_opts sample,
      0x42 ∷ 1 ∷ 0x12 ∷ 0x34 ∷ 1 ∷ 2 ∷ 0xb1 ∷ b'a' ∷ 0x11 ∷ 50 ∷ 0xff ∷ b'h' ∷ b'i' ∷ [],
    )
unfolding marshal_binary write_options write_fixed write_marker stable_sort
marshal_sample = refl

unmarshal-marshal_example :
    (bytes : Bytes) × (marshal_binary sample ≡ ok (sort_opts sample, bytes))
    × (unmarshal_binary new_message bytes ≡ (received sample bytes, ok tt))
unmarshal-marshal_example = unmarshal-marshal sample sample-IsWellFormed

unmarshal_cut : (unmarshal_binary new_message (0x42 ∷ 1 ∷ 0 ∷ 1 ∷ 9 ∷ [])).1 ≡ err truncated
unfolding unmarshal_binary parse_body
unmarshal_cut = refl

unmarshal_version : (unmarshal_binary new_message (0x02 ∷ 1 ∷ 0 ∷ 1 ∷ [])).1 ≡ err invalid_version
unfolding unmarshal_binary
unmarshal_version = refl

packet_size-marshal_example : packet_size sample ≡ (marshal_binary sample >>= measured)
packet_size-marshal_example = packet_size-marshal sample refl

-- Option 267 = 256 + 11 is read as a path.
path_267 : parse_option_value 11 (b'x' ∷ []) ≡ ok (text (b'x' ∷ []))
unfolding parse_option_value parse_as option_def
path_267 = refl

parse_option-wraps_example :
    parse_option
      (header_byte (256 + 11 - 0) 1)
      (header_ext (256 + 11 - 0) 1 ++ ((b'x' ∷ []) ++ []))
      0
    ≡ ok (11, text (b'x' ∷ []), [])
parse_option-wraps_example =
    parse_option-wraps 0 11 (b'x' ∷ []) [] (text (b'x' ∷ [])) (omega arith) (omega arith)
      (omega arith) path_267
