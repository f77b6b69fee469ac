-- ===== src/Options.antt =====
-- message_options.go: option numbers, the table of their formats, option values and their bytes,
-- and the list of options with its stable order.
-- A byte slice or string is the list of its bytes; `OptionID` is a number below 256.
pub mod Ints
pub mod Table
pub mod Values
pub mod Order
use Prim.Native.String.{String}
use mathlib.Core.List.{foldl}
use coap.Base.{
  ℕ, zero, suc, ◌+◌, ◌-◌, ◌*◌, ◌/◌, ◌%◌, ◌^◌, Bool, true, false, ◌||◌, not, List, [], ◌∷◌, ◌++◌,
  Option, none, some, ltb, leb, ◌==◌, if◌then◌else◌, length, drop, replicate, Result, ok, ◌>>=◌,
  or_panic,
}
use coap.Base.Int.{ℤ, pos, negsuc, to_uint32}

abbrev pub Bytes : Type 0
Bytes = List ℕ

abbrev pub opt_observe : ℕ
opt_observe = 6

abbrev pub opt_location_path : ℕ
opt_location_path = 8

abbrev pub opt_uri_path : ℕ
opt_uri_path = 11

abbrev pub opt_content_format : ℕ
opt_content_format = 12

abbrev pub opt_uri_query : ℕ
opt_uri_query = 15

abbrev pub opt_accept : ℕ
opt_accept = 17

abbrev pub opt_block2 : ℕ
opt_block2 = 23

abbrev pub opt_block1 : ℕ
opt_block1 = 27

abbrev pub opt_size2 : ℕ
opt_size2 = 28

abbrev pub opt_size1 : ℕ
opt_size1 = 60

pub data ValueFormat : Type 0 where
  value_unknown value_empty value_opaque value_uint value_string : ValueFormat

pub record OptionDef : Type 0 where
  pub name : String
  pub value_format : ValueFormat
  pub min_len : ℕ
  pub max_len : ℕ

abbrev def : String → ValueFormat → ℕ → ℕ → OptionDef
def n f lo hi = record { name = n; value_format = f; min_len = lo; max_len = hi }

-- The entries that the array `optionDefs` sets; every other entry is Go's zero value.
abbrev pub option_defs : List (ℕ × OptionDef)
option_defs =
    (1, def "if-match" value_opaque 0 8)
    ∷ (3, def "uri-host" value_string 1 255)
    ∷ (4, def "etag" value_opaque 1 8)
    ∷ (5, def "if-none-match" value_empty 0 0)
    ∷ (6, def "observe" value_uint 0 3)
    ∷ (7, def "uri-port" value_uint 0 2)
    ∷ (8, def "location-path" value_string 0 255)
    ∷ (11, def "uri-path" value_string 0 255)
    ∷ (12, def "content-format" value_uint 0 2)
    ∷ (14, def "max-age" value_uint 0 4)
    ∷ (15, def "uri-query" value_string 0 255)
    ∷ (17, def "uri-accept" value_uint 0 2)
    ∷ (20, def "location-query" value_string 0 255)
    ∷ (35, def "proxy-uri" value_string 1 1034)
    ∷ (39, def "proxy-scheme" value_string 1 255)
    ∷ (60, def "size1" value_uint 0 4)
    ∷ (28, def "size2" value_uint 0 4)
    ∷ (27, def "block1" value_opaque 0 3)
    ∷ (23, def "block2" value_opaque 0 3)
    ∷ []

abbrev pub no_def : OptionDef
no_def = def "" value_unknown 0 0

unfoldable pub find_def : List (ℕ × OptionDef) → ℕ → OptionDef
find_def [] id = no_def
find_def ((k, d) ∷ ds) id = if k == id then d else find_def ds id

-- `optionDefs[id]`
unfoldable pub option_def : ℕ → OptionDef
unfolding find_def
option_def id = find_def option_defs id

-- The dynamic types that the code puts into an `interface{}`, or asks for by a type switch.
-- `null` is the nil interface and `other` a value of any further type.
pub data Value : Type 0 where
  null : Value
  text : Bytes → Value
  octets : Bytes → Value
  media : ℤ → Value
  int : ℤ → Value
  uint16 : ℕ → Value
  int32 : ℤ → Value
  uint : ℕ → Value
  uint32 : ℕ → Value
  texts : List Bytes → Value
  other : Value

pub record Opt : Type 0 where
  pub id : ℕ
  pub value : Value

-- `binary.BigEndian` on 16 and 32 bits.
unfoldable pub put_uint16 : ℕ → Bytes
put_uint16 v = (v / 256 % 256) ∷ (v % 256) ∷ []

unfoldable pub put_uint32 : ℕ → Bytes
put_uint32 v = (v / 16777216 % 256) ∷ (v / 65536 % 256) ∷ (v / 256 % 256) ∷ (v % 256) ∷ []

unfoldable pub big_endian : Bytes → ℕ
big_endian = foldl (λ acc b. acc * 256 + b) 0

unfoldable pub encode_int : ℕ → Bytes
unfolding put_uint16 put_uint32
encode_int v =
    if ltb v 256
    then (v % 256) ∷ []
    else if ltb v 65536
    then put_uint16 (v % 65536)
    else if ltb v 16777216
    then drop 1 (put_uint32 v)
    else put_uint32 v

-- `none` is the panic of `tmp[4-len(b):]` at more than four bytes.
unfoldable pub decode_int : Bytes → Option ℕ
unfolding big_endian
decode_int b =
    if leb (length b) 4 then some (big_endian (replicate (4 - length b) 0 ++ b)) else none

-- The type switch of `toBytes`; `none` is its panic.
unfoldable pub value_bytes : Value → Option Bytes
unfolding to_uint32 encode_int
value_bytes (text s) = some s
value_bytes (octets b) = some b
value_bytes (media i) = some (encode_int (to_uint32 i))
value_bytes (int i) = some (encode_int (to_uint32 i))
value_bytes (uint16 n) = some (encode_int n)
value_bytes (int32 i) = some (encode_int (to_uint32 i))
value_bytes (uint n) = some (encode_int (n % 2 ^ 32))
value_bytes (uint32 n) = some (encode_int n)
value_bytes _ = none

unfoldable pub to_bytes : Opt → Option Bytes
unfolding value_bytes
to_bytes o = value_bytes o.value

-- The switch on the format, behind the two checks.
unfoldable pub parse_format : ValueFormat → ℕ → Bytes → Result Value
unfolding decode_int
parse_format value_uint id buf = do
  n ← or_panic (decode_int buf)
  if id == opt_content_format || id == opt_accept then ok (media (pos n)) else ok (uint32 n)
parse_format value_string id buf = ok (text buf)
parse_format value_opaque id buf = ok (octets buf)
parse_format value_empty id buf = ok (octets buf)
parse_format value_unknown id buf = ok null

abbrev is_unknown : ValueFormat → Bool
is_unknown value_unknown = true
is_unknown _ = false

-- The body of `parseOptionValue` behind `def := optionDefs[optionID]`.
unfoldable pub parse_as : OptionDef → ℕ → Bytes → Result Value
unfolding parse_format
parse_as d id buf =
    if is_unknown d.value_format
    then ok null
    else if ltb (length buf) d.min_len || ltb d.max_len (length buf)
    then ok null
    else parse_format d.value_format id buf

-- `null` means that the option is skipped.
unfoldable pub parse_option_value : ℕ → Bytes → Result Value
parse_option_value id buf = parse_as (option_def id) id buf

-- `Minus`: the options with another number, in their order.
unfoldable pub minus : List Opt → ℕ → List Opt
minus [] oid = []
minus (o ∷ os) oid = let rest = minus os oid in if o.id == oid then rest else o ∷ rest

-- `Less`: by number, and by position where the numbers are the same.
unfoldable pub less : (ℕ × Opt) → (ℕ × Opt) → Bool
less (i, a) (j, b) = if a.id == b.id then ltb i j else ltb a.id b.id

-- A step of the stable sort: an option at a position goes behind its neighbour at the next position
-- if `Less` puts the neighbour first, and so on. `Less` looks at no more than which of the two
-- positions is lower.
unfoldable pub insert : Opt → List Opt → List Opt
unfolding less
insert o [] = o ∷ []
insert o (p ∷ ps) = if less (1, p) (0, o) then p ∷ insert o ps else o ∷ p ∷ ps

-- `sort.Stable(&m.opts)`
unfoldable pub stable_sort : List Opt → List Opt
unfolding insert
stable_sort [] = []
stable_sort (o ∷ os) = insert o (stable_sort os)
