-- ===== src/Tests/Samples.antt =====
-- The message of the tests.
use coap.Base.{[], ◌∷◌, arith}
use coap.Base.Int.{pos}
use coap.Options.{text, media, option_def, find_def, encode_int}
use coap.Message.{Message, new_message}
use coap.Wire.RoundTrip.{IsWellFormed}

-- A request with a token, two options out of order, and a payload.
abbrev pub sample : Message
sample = record new_message {
  code = 1;
  message_id = 0x1234;
  token = 1 ∷ 2 ∷ [];
  payload = b'h' ∷ b'i' ∷ [];
  opts =
      record { id = 12; value = media (pos 50) }
      ∷ record { id = 11; value = text (b'a' ∷ []) }
      ∷ [];
}

pub sample-IsWellFormed : IsWellFormed sample
unfolding option_def find_def encode_int
sample-IsWellFormed = ground arith
