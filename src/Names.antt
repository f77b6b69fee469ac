-- ===== src/Names.antt =====
-- constants.go: the names of message types and codes, and codes as numbers.
pub mod Codes
pub mod Declared
use Prim.Native.Char.{code}
use Prim.Native.String.{String}
use coap.Base.Int.{ℤ, pos, negsuc, to_uint32}
use coap.Message.{split}
use Prim.Native.Nat.{bit_and, bit_or}
use coap.Base.{zero, suc, ◌*◌, ℕ, ◌+◌, ◌/◌, ◌%◌, List, [], ◌∷◌, ◌++◌, ltb, ◌==◌, if◌then◌else◌}
use coap.Options.{Bytes}

-- The bytes of an ASCII text.
abbrev pub codes : String → Bytes
codes String.[] = []
codes (String.◌∷◌ c s) = code c ∷ codes s

unfoldable pub hex_digit : ℕ → ℕ
hex_digit n = if ltb n 10 then b'0' + n else 87 + n

-- `fmt.Sprintf("Unknown (0x%x)", i)` for a byte.
unfoldable pub unknown_name : ℕ → Bytes
unfolding hex_digit
unknown_name n =
    codes "Unknown (0x"
    ++ ((if ltb n 16 then hex_digit n ∷ [] else hex_digit (n / 16) ∷ hex_digit (n % 16) ∷ [])
        ++ codes ")")

unfoldable pub name_in : List (ℕ × String) → ℕ → Bytes
name_in [] n = unknown_name n
name_in ((k, s) ∷ names) n = if k == n then codes s else name_in names n

abbrev pub type_names : List (ℕ × String)
type_names = (0, "Confirmable") ∷ (1, "NonConfirmable") ∷ (2, "Acknowledgement") ∷ (3, "Reset") ∷ []

abbrev pub code_names : List (ℕ × String)
code_names =
    (0, "EMPTY")
    ∷ (1, "GET")
    ∷ (2, "POST")
    ∷ (3, "PUT")
    ∷ (4, "DELETE")
    ∷ (5, "FETCH")
    ∷ (6, "PATCH")
    ∷ (7, "iPATCH")
    ∷ (65, "Created")
    ∷ (66, "Deleted")
    ∷ (67, "Valid")
    ∷ (68, "Changed")
    ∷ (69, "Content")
    ∷ (95, "Continue")
    ∷ (128, "BadRequest")
    ∷ (129, "Unauthorized")
    ∷ (130, "BadOption")
    ∷ (131, "Forbidden")
    ∷ (132, "NotFound")
    ∷ (133, "MethodNotAllowed")
    ∷ (134, "NotAcceptable")
    ∷ (136, "RequestEntityIncomplete")
    ∷ (140, "PreconditionFailed")
    ∷ (141, "RequestEntityTooLarge")
    ∷ (143, "UnsupportedMediaType")
    ∷ (160, "InternalServerError")
    ∷ (161, "NotImplemented")
    ∷ (162, "BadGateway")
    ∷ (163, "ServiceUnavailable")
    ∷ (164, "GatewayTimeout")
    ∷ (165, "ProxyingNotSupported")
    ∷ []

-- `COAPType.String`
unfoldable pub type_name : ℕ → Bytes
type_name n = name_in type_names n

-- `COAPCode.String`
unfoldable pub code_name : ℕ → Bytes
code_name n = name_in code_names n

-- Two decimal digits of `%02d`, for a number below 100.
unfoldable pub two_digits : ℕ → Bytes
two_digits n = (b'0' + n / 10) ∷ (b'0' + n % 10) ∷ []

-- `NumberString`: the class of a code, which is one digit, and its detail.
unfoldable pub number_string : ℕ → Bytes
unfolding two_digits
number_string c = (b'0' + c / 32) ∷ b'.' ∷ two_digits (c % 32)

-- `ToCOAPCode`. The third-party `ToInt` is a parameter.
unfoldable pub to_coap_code : (Bytes → ℤ) → Bytes → ℕ
to_coap_code to_int val = elim (split b'.' val) [
  | [] ↦ 160
  | upper ∷ parts ↦ elim parts [
    | [] ↦ 160
    | lower ∷ more ↦ elim more [
      | [] ↦
          bit_or (to_uint32 (to_int upper) * 32 % 256) (bit_and (to_uint32 (to_int lower)) 0x1F)
          % 256
      | _ ∷ _ ↦ 160
    ]
  ]
]

-- `%d`. Each step drops a digit, so as much fuel as the number and one more is enough.
unfoldable pub digits : ℕ → ℕ → Bytes
digits zero n = []
digits (suc fuel) n =
    let rest = digits fuel (n / 10) in
    if ltb n 10 then (b'0' + n) ∷ [] else rest ++ ((b'0' + n % 10) ∷ [])

unfoldable pub decimal : ℤ → Bytes
unfolding digits
decimal (pos n) = digits (suc n) n
decimal (negsuc n) = b'-' ∷ digits (n + 2) (n + 1)

abbrev pub media_names : List (ℕ × String)
media_names =
    (0, "text/plain;charset=utf-8")
    ∷ (40, "application/link-format")
    ∷ (41, "application/xml")
    ∷ (42, "application/octet-stream")
    ∷ (47, "application/exi")
    ∷ (50, "application/json")
    ∷ (60, "application/cbor")
    ∷ (112, "application/senml_cbor")
    ∷ (11542, "application/vnd.oma.lwm2m+tlv")
    ∷ (11543, "application/vnd.oma.lwm2m+json")
    ∷ []

unfoldable pub media_in : List (ℕ × String) → ℕ → Bytes
unfolding decimal
media_in [] n = codes "unknown-" ++ decimal (pos n)
media_in ((k, s) ∷ names) n = if k == n then codes s else media_in names n

-- `MediaType.String`; `None` is -1.
unfoldable pub media_name : ℤ → Bytes
unfolding media_in decimal
media_name (pos n) = media_in media_names n
media_name (negsuc zero) = codes "none"
media_name (negsuc (suc n)) = codes "unknown-" ++ decimal (negsuc (suc n))
