-- ===== src/Options/Values.antt =====
-- parseOptionValue against toBytes of message_options.go.
use coap.Base.{ℕ, ◌^◌, ◌≤◌, ◌<◌, ◌≡◌, refl, some, length, ok, Returns, ◌⊎◌, arith, ◌≢◌}
use coap.Base.Int.{pos, negsuc}
use coap.Options.{
  Bytes, encode_int, Value, null, text, octets, media, uint32, int, uint16, int32, uint, texts,
  other, Opt, OptionDef, value_empty, value_opaque, value_uint, value_string, option_def,
  value_bytes, to_bytes, parse_option_value, parse_as, opt_accept, opt_content_format,
}
use coap.Options.Ints.{decode_int-encode_int}
use coap.Options.Table.{option_def-max_len, option_def-max_len_le}

-- The values that `parseOptionValue` gives an option of this number and format, within its lengths.
abbrev pub IsValueOf : OptionDef → ℕ → Value → Type 0
IsValueOf d id (text s) =
    (d.value_format ≡ value_string) × (d.min_len ≤ length s) × (length s ≤ d.max_len)
IsValueOf d id (octets b) =
    ((d.value_format ≡ value_opaque) ⊎ (d.value_format ≡ value_empty))
    × (d.min_len ≤ length b)
    × (length b ≤ d.max_len)
IsValueOf d id (media (pos n)) =
    (d.value_format ≡ value_uint)
    × ((id ≡ opt_content_format) ⊎ (id ≡ opt_accept))
    × (n < 2 ^ 32)
    × (d.min_len ≤ length (encode_int n))
    × (length (encode_int n) ≤ d.max_len)
IsValueOf d id (uint32 n) =
    (d.value_format ≡ value_uint)
    × (id ≢ opt_content_format)
    × (id ≢ opt_accept)
    × (n < 2 ^ 32)
    × (d.min_len ≤ length (encode_int n))
    × (length (encode_int n) ≤ d.max_len)
IsValueOf d id _ = ⊥

abbrev pub IsCanonical : Opt → Type 0
IsCanonical o = IsValueOf (option_def o.id) o.id o.value

parse_as-value_bytes :
    (d : OptionDef) (id : ℕ) (v : Value)
    → (d.value_format ≡ value_uint → d.max_len ≤ 4)
    → IsValueOf d id v
    → (b : Bytes) × (value_bytes v ≡ some b) × (parse_as d id b ≡ ok v) × (length b ≤ d.max_len)
unfolding parse_as value_bytes
parse_as-value_bytes d id (text s) narrow h = (s, refl, ground arith, ground arith)
parse_as-value_bytes d id (octets s) narrow h = (s, refl, ground arith, ground arith)
parse_as-value_bytes d id (media (pos n)) narrow h =
    (encode_int n, ground arith, ground (arith, decode_int-encode_int n), ground arith)
parse_as-value_bytes d id (uint32 n) narrow h =
    (encode_int n, ground arith, ground (arith, decode_int-encode_int n), ground arith)
parse_as-value_bytes d id (media (negsuc n)) narrow h = absurd h
parse_as-value_bytes d id null narrow h = absurd h
parse_as-value_bytes d id (int _) narrow h = absurd h
parse_as-value_bytes d id (uint16 _) narrow h = absurd h
parse_as-value_bytes d id (int32 _) narrow h = absurd h
parse_as-value_bytes d id (uint _) narrow h = absurd h
parse_as-value_bytes d id (texts _) narrow h = absurd h
parse_as-value_bytes d id other narrow h = absurd h

-- The bytes of a canonical option exist, parse back to its value, and are short.
pub parse_option_value-to_bytes :
    (o : Opt)
    → IsCanonical o
    → (b : Bytes) × (to_bytes o ≡ some b)
      × (parse_option_value o.id b ≡ ok o.value)
      × (length b ≤ 1034)
unfolding parse_option_value to_bytes
parse_option_value-to_bytes o h =
    let (b, e, p, le) =
      parse_as-value_bytes (option_def o.id) o.id o.value (option_def-max_len o.id) h in
    (b, e, p, omega (arith, option_def-max_len_le o.id))

-- What a parsed option satisfies: its number is in the table, its bytes fit the table's lengths, and
-- a number is a media type where the option tells one.
abbrev pub HasFormat : OptionDef → ℕ → Value → Type 0
HasFormat d id (text s) =
    (d.value_format ≡ value_string) × (d.min_len ≤ length s) × (length s ≤ d.max_len)
HasFormat d id (octets b) =
    ((d.value_format ≡ value_opaque) ⊎ (d.value_format ≡ value_empty))
    × (d.min_len ≤ length b)
    × (length b ≤ d.max_len)
HasFormat d id (media i) = d.value_format ≡ value_uint
HasFormat d id (uint32 n) =
    (d.value_format ≡ value_uint) × (id ≢ opt_content_format) × (id ≢ opt_accept)
HasFormat d id _ = ⊥

abbrev pub HasFormatOrNull : OptionDef → ℕ → Value → Type 0
HasFormatOrNull d id null = Unit {0}
HasFormatOrNull d id v = HasFormat d id v

parse_as-Returns :
    (d : OptionDef) (id : ℕ) (b : Bytes)
    → (d.value_format ≡ value_uint → d.max_len ≤ 4)
    → Returns (HasFormatOrNull d id) (parse_as d id b)
unfolding parse_as
parse_as-Returns d id b narrow = ground arith

-- `parseOptionValue` never panics and never fails: it gives nil or a value of the format that the
-- table has for the option's number.
pub parse_option_value-Returns :
    (id : ℕ) (b : Bytes) → Returns (HasFormatOrNull (option_def id) id) (parse_option_value id b)
unfolding parse_option_value
parse_option_value-Returns id b = parse_as-Returns (option_def id) id b (option_def-max_len id)
