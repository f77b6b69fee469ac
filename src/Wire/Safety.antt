-- ===== src/Wire/Safety.antt =====
-- unmarshalBinary of message_parse.go on any bytes at all.
use Prim.Native.Nat.{bit_and}
use coap.Base.{
  ℕ, ◌+◌, ◌%◌, ◌≤◌, ◌<◌, List, length, take, drop, All, Result, ok, IsSafe, ◌>>=◌, ◌>>◌, guard, leb,
  truncated,
}
use coap.Options.{Bytes, Value, Opt, option_def, parse_option_value}
use coap.Options.Values.{HasFormat, HasFormatOrNull}
use coap.Message.{Message}
use coap.Wire.{parse_ext_opt}

-- A parsed option: its number is a byte and is in the table, and its value has the table's format.
abbrev pub IsParsed : Opt → Type 0
IsParsed o = (o.id < 256) × HasFormat (option_def o.id) o.id o.value

-- A round of the loop yields an option that may be kept, and leaves no more bytes than it found.
abbrev IsRound : Bytes → ℕ × Value × Bytes → Type 0
IsRound b (id, v, rest) =
    (id < 256) × HasFormatOrNull (option_def id) id v × (length rest ≤ length b)

-- The rest of a round, behind the length and behind the delta.
abbrev with_length : ℕ → ℕ × Bytes → Result (ℕ × Value × Bytes)
with_length oid s = do
  guard (leb s.0 (length s.1)) truncated
  v ← parse_option_value oid (take s.0 s.1)
  ok (oid, v, drop s.0 s.1)

abbrev with_delta : ℕ → ℕ → ℕ × Bytes → Result (ℕ × Value × Bytes)
with_delta h prev r = parse_ext_opt (bit_and h 0x0f) r.1 >>= with_length ((prev + r.0) % 256)

-- The loop ends by itself, without a panic, and every option that it keeps is a parsed one.
abbrev IsSafeLoop : List Opt × Result Bytes → Type 0
IsSafeLoop (opts, r) = All IsParsed opts × IsSafe (λ (_ : Bytes). Unit {0}) r

-- What every datagram leaves in a new message.
pub record IsReceived (m : Message) : Type 0 where
  pub type_bits : m.type < 4
  pub code_byte : m.code < 256
  pub message_id_word : m.message_id < 65536
  pub token_short : length m.token ≤ 8
  pub opts_parsed : All IsParsed m.opts

abbrev pub IsSafeMessage : Message × Result (Unit {0}) → Type 0
IsSafeMessage (m, r) = IsReceived m × IsSafe (λ (_ : Unit {0}). Unit {0}) r
