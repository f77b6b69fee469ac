-- ===== src/Message.antt =====
-- message.go: the message record and the methods that read and change its options.
-- A nil slice or map and an empty one are told apart only where the code does (`queryVars`,
-- `PathVars`). `Meta.DtlsPeer` and `Meta.Server` are pointers to parts outside the message and are
-- left out.
pub mod Values
pub mod Paths
pub mod Queries
pub mod Locations
pub mod Listing
pub mod Sendable
pub mod Read
use coap.Base.{
  ℕ, zero, suc, ◌+◌, ◌==◌, Bool, true, false, List, [], ◌∷◌, ◌++◌, Option, none, some,
  if◌then◌else◌, map, ltb,
}
use coap.Base.Int.{ℤ, pos, negsuc}
use coap.Options.{
  Bytes, Value, null, text, octets, media, int, uint16, int32, uint, uint32, texts, other, Opt,
  minus, opt_content_format, opt_accept, opt_uri_path, opt_size1, opt_size2,
}

pub record Metadata : Type 0 where
  pub listener_name : Bytes
  pub remote_addr : Bytes
  pub received_at : ℕ
  pub block_size : ℕ
  pub max_message_size : ℕ

pub record Message : Type 0 where
  pub type : ℕ
  pub code : ℕ
  pub message_id : ℕ
  pub token : Bytes
  pub payload : Bytes
  pub packet_size : ℕ
  pub opts : List Opt
  pub query_vars : Option (List (Bytes × Bytes))
  pub path_vars : Option (List (Bytes × Bytes))
  pub meta : Metadata

abbrev pub no_meta : Metadata
no_meta = record {
  listener_name = [];
  remote_addr = [];
  received_at = 0;
  block_size = 0;
  max_message_size = 0;
}

-- `&Message{}`
abbrev pub new_message : Message
new_message = record {
  type = 0;
  code = 0;
  message_id = 0;
  token = [];
  payload = [];
  packet_size = 0;
  opts = [];
  query_vars = none;
  path_vars = none;
  meta = no_meta;
}

abbrev pub type_confirmable : ℕ
type_confirmable = 0

abbrev pub type_non_confirmable : ℕ
type_non_confirmable = 1

abbrev pub type_acknowledgement : ℕ
type_acknowledgement = 2

abbrev pub type_reset : ℕ
type_reset = 3

unfoldable pub is_confirmable : Message → Bool
is_confirmable m = m.type == type_confirmable

unfoldable pub is_request : Message → Bool
is_request m = ltb m.code 10

-- `Options`: every value of the number, in order.
unfoldable pub options_of : ℕ → List Opt → List Value
options_of k [] = []
options_of k (o ∷ os) = let rest = options_of k os in if k == o.id then o.value ∷ rest else rest

unfoldable pub options : Message → ℕ → List Value
unfolding options_of
options m k = options_of k m.opts

-- `Option`: the first value of the number, or nil.
unfoldable pub option_of : ℕ → List Opt → Value
option_of k [] = null
option_of k (o ∷ os) = if k == o.id then o.value else option_of k os

unfoldable pub option : Message → ℕ → Value
unfolding option_of
option m k = option_of k m.opts

-- The type assertion `o.(string)` of each value; `none` is its panic.
unfoldable pub assert_strings : List Value → Option (List Bytes)
assert_strings [] = some []
assert_strings (text s ∷ vs) = elim (assert_strings vs) [ none ↦ none | some ss ↦ some (s ∷ ss) ]
assert_strings (_ ∷ vs) = none

unfoldable pub option_strings : Message → ℕ → Option (List Bytes)
unfolding assert_strings options
option_strings m k = assert_strings (options m k)

unfoldable pub remove_option : Message → ℕ → Message
unfolding minus
remove_option m k = record m { opts = minus m.opts k }

-- A slice of strings becomes an option for each string.
unfoldable pub entries : ℕ → Value → List Opt
entries k (texts ss) = map (λ s. record { id = k; value = text s }) ss
entries k v = record { id = k; value = v } ∷ []

unfoldable pub with_option : Message → ℕ → Value → Bool → Message
unfolding entries remove_option
with_option m k v replace =
    let m' = if replace then remove_option m k else m in record m' { opts = m'.opts ++ entries k v }

unfoldable pub with_path : Message → List Bytes → Message
unfolding with_option
with_path m ss = with_option m opt_uri_path (texts ss) true

unfoldable pub path : Message → Option (List Bytes)
unfolding option_strings
path m = option_strings m opt_uri_path

-- `strings.Split` at a one-byte separator, which gives at least one part. `acc` is the part that
-- is being read.
unfoldable pub split_from : ℕ → Bytes → Bytes → List Bytes
split_from sep acc [] = acc ∷ []
split_from sep acc (c ∷ s) =
    let here = acc ∷ split_from sep [] s in
    let on = split_from sep (acc ++ (c ∷ [])) s in if c == sep then here else on

unfoldable pub split : ℕ → Bytes → List Bytes
unfolding split_from
split sep s = split_from sep [] s

-- `strings.Join` with a one-byte separator.
unfoldable pub join : ℕ → List Bytes → Bytes
join sep [] = []
join sep (s ∷ []) = s
join sep (s ∷ t ∷ ss) = s ++ (sep ∷ join sep (t ∷ ss))

abbrev pub slash : ℕ
slash = b'/'

unfoldable pub path_string : Message → Option Bytes
path_string m = elim (path m) [ none ↦ none | some ss ↦ some (join slash ss) ]

-- `for s[0] == '/' && len(s) > 1 { s = s[1:] }`
unfoldable pub strip_slashes : Bytes → Bytes
strip_slashes [] = []
strip_slashes (c ∷ []) = c ∷ []
strip_slashes (c ∷ d ∷ s) = if c == slash then strip_slashes (d ∷ s) else c ∷ d ∷ s

unfoldable pub with_path_string : Message → Bytes → Message
with_path_string m [] = m
with_path_string m (c ∷ s) = with_path m (split slash (strip_slashes (c ∷ s)))

unfoldable pub with_size1 : Message → ℤ → Message
unfolding with_option
with_size1 m n = with_option m opt_size1 (int n) true

unfoldable pub with_size2 : Message → ℤ → Message
unfolding with_option
with_size2 m n = with_option m opt_size2 (int n) true

-- `None` is the media type -1.
abbrev pub no_media : ℤ
no_media = negsuc 0

abbrev pub is_no_media : ℤ → Bool
is_no_media (negsuc zero) = true
is_no_media _ = false

-- `opt.(MediaType)` behind the test for nil; `none` is the panic.
unfoldable pub assert_media : Value → Option ℤ
assert_media null = some no_media
assert_media (media i) = some i
assert_media _ = none

unfoldable pub accept : Message → Option ℤ
unfolding assert_media option
accept m = assert_media (option m opt_accept)

unfoldable pub content_format : Message → Option ℤ
unfolding assert_media option
content_format m = assert_media (option m opt_content_format)

unfoldable pub with_accept : Message → ℤ → Message
unfolding with_option
with_accept m mt = if is_no_media mt then m else with_option m opt_accept (media mt) true

unfoldable pub with_content_format : Message → ℤ → Message
unfolding with_option
with_content_format m mt =
    if is_no_media mt then m else with_option m opt_content_format (media mt) true

-- The reply takes the request's message id and block size, and its token unless it is empty.
unfoldable pub make_reply : Message → ℕ → Bytes → Message
make_reply m code payload = record new_message {
  token = if code == 0 then [] else m.token;
  message_id = m.message_id;
  type = type_acknowledgement;
  payload = payload;
  code = code;
  meta = record no_meta { block_size = m.meta.block_size };
}

-- The message that resets the peer's.
abbrev pub make_reset : Message → ℕ → Message
make_reset m code = record new_message {
  type = type_reset;
  code = code;
  message_id = m.message_id;
  token = m.token;
}
