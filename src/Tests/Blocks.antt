-- ===== src/Tests/Blocks.antt =====
-- blockwise.go at concrete blocks and caches.
use coap.Base.{◌≡◌, refl, List, [], ◌∷◌, ◌++◌, some, ok, true, bytes_eq}
use coap.Base.Maps.{load, string_key}
use coap.Options.{Bytes, Value, text, octets}
use coap.Message.{Message, new_message, path_string, join, path, options}
use coap.Names.{code_name, name_in}
use coap.Block.{BlockMetadata, encode, block_decode, size_bits, more_bit, last_byte, size_code}
use coap.Cache.{Clock, BlockCacheEntry, BlockCache, query_string, get_block_key}
use coap.Cache.Requests.{Parts}
use coap.Cache.Keys.{get_block_key-collides}

abbrev third : BlockMetadata
third = record { size = 1024; more = true; num = 3 }

encode-third : encode third ≡ 0x3e ∷ []
unfolding encode last_byte size_code
encode-third = refl

decode_third : block_decode (octets (0x3e ∷ [])) ≡ ok (some third)
unfolding block_decode size_bits more_bit
decode_third = refl

-- No test here has a query, so the strings of the values do not matter.
abbrev no_strings : List Value → List Bytes
no_strings vs = []

abbrev texts_of : List Value → List Bytes
texts_of [] = []
texts_of (text s ∷ vs) = s ∷ texts_of vs
texts_of (_ ∷ vs) = texts_of vs

abbrev clock : Clock
clock = record { now = 5; block_inactivity_timeout = 120 }

-- A PUT without a path, whose key is its method's name.
abbrev put : Bytes → Message
put payload = record new_message { code = 3; payload = payload }

abbrev put_key : Bytes
put_key = b'P' ∷ b'U' ∷ b'T' ∷ []

put_key_lem : (payload : Bytes) → get_block_key no_strings (put payload) ≡ some put_key
unfolding get_block_key path_string path code_name name_in query_string join
put_key_lem payload = refl

abbrev parts : Parts
parts = (clock, put (3 ∷ 4 ∷ [])) ∷ (clock, put (5 ∷ 6 ∷ [])) ∷ []

abbrev stored : BlockCacheEntry
stored = record { rsp = put (1 ∷ 2 ∷ 3 ∷ 4 ∷ 5 ∷ []); last = 0; expires = 9 }

abbrev cache : BlockCache
cache = (put_key, stored) ∷ []

load-stored : load put_key cache ≡ some stored
unfolding load bytes_eq
load-stored = refl

-- GET with path "ab", and GET with path "a" and query "b".
abbrev get_ab : Message
get_ab = record new_message {
  code = 1;
  opts = record { id = 11; value = text (b'a' ∷ b'b' ∷ []) } ∷ [];
}

abbrev get_a_b : Message
get_a_b = record new_message {
  code = 1;
  opts =
      record { id = 11; value = text (b'a' ∷ []) }
      ∷ record { id = 15; value = text (b'b' ∷ []) }
      ∷ [];
}

path_ab : path_string get_ab ≡ some ((b'a' ∷ []) ++ (b'b' ∷ []))
unfolding path_string path join
path_ab = refl

path_a : path_string get_a_b ≡ some (b'a' ∷ [])
unfolding path_string path join
path_a = refl

query_none : query_string texts_of get_ab ≡ []
unfolding query_string join options
query_none = refl

query_b : query_string texts_of get_a_b ≡ (b'b' ∷ []) ++ []
unfolding query_string join options
query_b = refl

get_block_key-collides_example : get_block_key texts_of get_ab ≡ get_block_key texts_of get_a_b
get_block_key-collides_example =
    get_block_key-collides texts_of get_ab get_a_b (b'a' ∷ []) (b'b' ∷ []) [] refl refl path_ab
      query_none path_a query_b
