-- ===== src/Tests/Handling.antt =====
-- handler.go at concrete messages.
use coap.Observe.{no_links}
use coap.Base.{
  Bool, map, ℕ, ◌≡◌, refl, ◌++◌, List, [], ◌∷◌, Option, none, some, true, false, arith, Result, ok,
  bytes_eq,
}
use coap.Base.Maps.{load, store, delete, string_key, number_key}
use coap.Options.{Bytes, Value, text}
use coap.Message.{
  with_option, Message, new_message, no_meta, make_reply, path_string, path, join, split,
  is_request, option,
}
use coap.Block.{
  get_block1, get_block2, get_block, block_of, block_decode, with_block1, with_block, encode,
  size_bits, more_bit, last_byte, size_code,
}
use coap.Names.{code_name, name_in}
use coap.Cache.{expire_blocks, get_block_key, query_string}
use coap.Dedup.{dedup_watcher, entry_of, put_entry, save, deduplicate, enter}
use coap.Route.{leaf, node, entry, match_routes, match_parts, find_route}
use coap.Dispatch.{Callbacks, Tables}
use coap.Transfer.{Config, requires_blockwise, proceed, collect_block1}
use coap.Transfer.Upload.{IsPart, collect_all, continue_reply, whole_payload, collect_all-whole}
use coap.Handler.{Server, handle_message, stamp, handle_new}
use coap.Handler.Lifetime.{Reach-forgets, here, next, handled, expired}
use coap.Handler.Once.{handle_message-again}

abbrev no_strings : List Value → List Bytes
no_strings vs = []

-- The only route callback answers with content.
abbrev answer_content : ℕ → Message → Option Message
answer_content c req = some (make_reply req 69 (1 ∷ 2 ∷ []))

abbrev callbacks : Callbacks ℕ ℕ
callbacks = record { call = answer_content; notify = λ o m. true; not_found = none }

abbrev cfg : Config
cfg = record {
  clock = record { now = 5; block_inactivity_timeout = 120 };
  deduplicate_expiration = 600;
  block_default_size = 1024;
}

abbrev cfg_later : Config
cfg_later = record cfg { clock = record { now = 8; block_inactivity_timeout = 120 } }

abbrev tables : Tables ℕ ℕ
tables = record {
  block_cache = [];
  pending = record {
    pending_map = [];
    pending_mid_map = [];
    pending_msg_id = 1;
    channels = [];
    next_entry = 0;
  };
  observations = [];
  routes = entry (b'a' ∷ []) (node [] (some 0) leaf) leaf;
}

abbrev server : Server ℕ ℕ
server = record { dedup = record { dedup_map = []; dedup_delete_after = [] }; tables = tables }

abbrev from_peer : ℕ → Message
from_peer at = record new_message {
  code = 1;
  message_id = 9;
  opts = record { id = 11; value = text (b'a' ∷ []) } ∷ [];
  meta = record no_meta { remote_addr = b'p' ∷ []; received_at = at };
}

abbrev first_handled : Result (Server ℕ ℕ × Option Message)
first_handled = handle_message no_strings callbacks cfg no_links server (from_peer 5)

abbrev reply : Message
reply = record new_message {
  type = 2;
  code = 69;
  message_id = 9;
  payload = 1 ∷ 2 ∷ [];
  meta = record no_meta { remote_addr = b'p' ∷ []; received_at = 5 };
}

abbrev served : Server ℕ ℕ
served = record {
  dedup = record {
    dedup_map = (b'p' ∷ [], (9, record { pending = false; rsp = some reply }) ∷ []) ∷ [];
    dedup_delete_after = (b'p' ∷ [], 605) ∷ [];
  };
  tables = tables;
}

handle_get : first_handled ≡ ok (served, some reply)
unfolding handle_message deduplicate entry_of load handle_new get_block1 block_of block_decode
    option get_block2 is_request path_string path match_routes match_parts split join find_route
    bytes_eq requires_blockwise save store delete put_entry make_reply enter
handle_get = refl

server_fresh : entry_of server.dedup (b'p' ∷ []) 9 ≡ none
unfolding entry_of load
server_fresh = refl

handle_message-again_example :
    handle_message no_strings callbacks cfg_later no_links served (from_peer 8)
    ≡ ok (served, stamp cfg_later (from_peer 8) (some reply))
handle_message-again_example =
    handle_message-again no_strings callbacks cfg cfg_later no_links no_links server served
      (from_peer 5) (from_peer 8) (some reply) (omega arith) (omega arith) refl refl server_fresh
      handle_get

-- The peer's message at time 5, and a round of the watcher of blocks: at time 606 all is forgotten.
Reach-forgets_example : entry_of (dedup_watcher 606 served.dedup) (b'p' ∷ []) 9 ≡ none
unfolding expire_blocks
Reach-forgets_example =
    Reach-forgets no_strings callbacks server served 606 (b'p' ∷ []) 9
      (next (next here (handled cfg no_links (from_peer 5) (some reply) handle_get))
        (expired 6 refl))
      refl (omega arith, tt)

-- A response of five bytes in blocks of two.
abbrev large : Message
large = record new_message {
  code = 69;
  payload = 1 ∷ 2 ∷ 3 ∷ 4 ∷ 5 ∷ [];
  meta = record no_meta { block_size = 2 };
}

abbrev get : Message
get = record new_message { code = 1 }

abbrev get_key : Bytes
get_key = b'E' ∷ b'T' ∷ []

get_key_lem : get_block_key no_strings get ≡ some (b'G' ∷ get_key)
unfolding get_block_key path_string path code_name name_in query_string join
get_key_lem = refl

-- A PUT in three parts of one byte each.
abbrev one_part : ℕ → Bool → ℕ → Message
one_part num more byte =
    with_block1 (record new_message { code = 3; payload = byte ∷ [] })
      (some (record { size = 16; more = more; num = num }))

abbrev put_key : Bytes
put_key = b'P' ∷ b'U' ∷ b'T' ∷ []

IsPart-0 :
    IsPart no_strings callbacks cfg 16 put_key
      (record { size = 16; more = true; num = 0 })
      (one_part 0 true 1)
unfolding get_block_key path_string path code_name name_in query_string join is_request get_block1
    get_block block_of block_decode with_block1 with_block with_option encode option size_bits
    more_bit last_byte size_code
IsPart-0 = (refl, refl, refl)

IsPart-1 :
    IsPart no_strings callbacks cfg 16 put_key
      (record { size = 16; more = true; num = 1 })
      (one_part 1 true 2)
unfolding get_block_key path_string path code_name name_in query_string join is_request get_block1
    get_block block_of block_decode with_block1 with_block with_option encode option size_bits
    more_bit last_byte size_code
IsPart-1 = (refl, refl, refl)

IsPart-2 :
    IsPart no_strings callbacks cfg 16 put_key
      (record { size = 16; more = false; num = 2 })
      (one_part 2 false 3)
unfolding get_block_key path_string path code_name name_in query_string join is_request get_block1
    get_block block_of block_decode with_block1 with_block with_option encode option size_bits
    more_bit last_byte size_code
IsPart-2 = (refl, refl, refl)

abbrev three_parts : List Message
three_parts = one_part 0 true 1 ∷ one_part 1 true 2 ∷ []

collect_all-whole_example :
    (t' t'' : Tables ℕ ℕ) × (collect_all no_strings callbacks cfg 16 put_key tables three_parts
      ≡ ok (t', map continue_reply three_parts))
    × (collect_block1 no_strings callbacks cfg t'
          (one_part 2 false 3)
          (get_block1 (one_part 2 false 3))
        ≡ ok (
            proceed t''
              (record (one_part 2 false 3) { payload = whole_payload three_parts ++ (3 ∷ []) })
              none))
unfolding with_block1 with_option
collect_all-whole_example =
    collect_all-whole no_strings callbacks cfg 16 put_key tables (one_part 0 true 1)
      (one_part 1 true 2 ∷ []) (one_part 2 false 3) 2 (IsPart-0, (IsPart-1, tt)) (λ e. omega arith)
      IsPart-2
