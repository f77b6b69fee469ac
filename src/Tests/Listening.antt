-- ===== src/Tests/Listening.antt =====
-- The listeners at concrete input.
use coap.Observe.{no_links}
use coap.Listen.Readers.{
  IsRead, listen, close, udp_round, failed, udp, closed, opened, next, Reach-IsRead,
}
use coap.Listen.Calm.{next}
use coap.Base.{
  ℕ, ◌≡◌, refl, ◌++◌, List, [], ◌∷◌, Option, none, some, true, false, arith, Result, ok, err,
  bytes_eq, not_found,
}
use coap.Base.Maps.{load, store, delete, string_key, number_key}
use coap.Options.{Bytes, Value}
use coap.Message.{
  option, is_request, path_string, path, split, join, make_reply, Message, new_message, no_meta,
}
use coap.Dedup.{entry_of, put_entry, save, deduplicate, enter}
use coap.Dispatch.{Callbacks}
use coap.Transfer.{Config, requires_blockwise, collect_block1}
use coap.Handler.{Server, handle_message, handle_new}
use coap.Options.{stable_sort}
use coap.Block.{get_block1, get_block2, block_of, block_decode}
use coap.Wire.{
  unmarshal_binary, parse_body, marshal_binary, write_fixed, write_options, write_marker,
}
use coap.Route.{leaf, match_routes, match_parts, find_route, get_special_route}
use coap.Listen.{Writers, write_to, add_proxy_receiver, exchange, raw_reply, proxy_recv}
use coap.Send.Address.{contains}
use coap.Listen.Proxy.{write_to-add_proxy_receiver, write_to-address}
use coap.Listen.Again.{exchange_again}

abbrev accept_all : Bytes → Bytes → Result (Unit {0})
accept_all raw to = ok tt

abbrev refuse : Bytes → Bytes → Result (Unit {0})
refuse raw to = err not_found

abbrev writers : Writers
writers = record { find_peer = λ addr. none; udp = some accept_all; proxy_callbacks = [] }

-- A proxy `p`, and an address `h:1` behind it.
no_colon : contains b':' (b'p' ∷ []) ≡ false
unfolding contains
no_colon = refl

no_dot : contains b'.' (b'p' ∷ []) ≡ false
unfolding contains
no_dot = refl

write_to-add_proxy_receiver_example :
    write_to
      (add_proxy_receiver writers (b'p' ∷ []) refuse)
      ((b'p' ∷ []) ++ (b':' ∷ b'h' ∷ b':' ∷ b'1' ∷ []))
      (0x40 ∷ [])
    ≡ err not_found
write_to-add_proxy_receiver_example =
    write_to-add_proxy_receiver writers b'p' [] (b'h' ∷ b':' ∷ b'1' ∷ []) (0x40 ∷ []) refuse
      accept_all no_colon no_dot refl

-- `[::1]:5683` is taken for an address of the proxy `[`.
bracket_no_colon : contains b':' (b'[' ∷ []) ≡ false
unfolding contains
bracket_no_colon = refl

abbrev loopback : Bytes
loopback = b':' ∷ b'1' ∷ b']' ∷ b':' ∷ b'5' ∷ b'6' ∷ b'8' ∷ b'3' ∷ []

write_to-address_example :
    write_to writers ((b'[' ∷ []) ++ (b':' ∷ loopback)) (0x40 ∷ [])
    ≡ proxy_recv writers (b'[' ∷ []) ((b'[' ∷ []) ++ (b':' ∷ loopback)) (0x40 ∷ [])
unfolding contains
write_to-address_example = write_to-address writers b'[' [] loopback (0x40 ∷ []) bracket_no_colon

abbrev pub no_strings : List Value → List Bytes
no_strings vs = []

abbrev no_answer : ℕ → Message → Option Message
no_answer c req = none

abbrev callbacks : Callbacks ℕ ℕ
callbacks = record { call = no_answer; notify = λ o m. true; not_found = none }

abbrev pub cfg : Config
cfg = record {
  clock = record { now = 5; block_inactivity_timeout = 120 };
  deduplicate_expiration = 600;
  block_default_size = 1024;
}

abbrev pub cfg_later : Config
cfg_later = record cfg { clock = record { now = 8; block_inactivity_timeout = 120 } }

abbrev pub server : Server ℕ ℕ
server = record {
  dedup = record { dedup_map = []; dedup_delete_after = [] };
  tables = record {
    block_cache = [];
    pending = record {
      pending_map = [];
      pending_mid_map = [];
      pending_msg_id = 1;
      channels = [];
      next_entry = 0;
    };
    observations = [];
    routes = leaf;
  };
}

abbrev pub malformed : Bytes
malformed = 0x42 ∷ 1 ∷ 0 ∷ 1 ∷ 9 ∷ []

-- A GET of no path.
abbrev pub get_bytes : Bytes
get_bytes = 0x40 ∷ 1 ∷ 0 ∷ 7 ∷ []

abbrev get : Message
get = record new_message { packet_size = 4; code = 1; message_id = 7 }

get_read : unmarshal_binary new_message get_bytes ≡ (get, ok tt)
unfolding unmarshal_binary parse_body
get_read = refl

get_new : entry_of server.dedup (b'h' ∷ []) 7 ≡ none
unfolding entry_of load
get_new = refl

abbrev get_reply : Message
get_reply = record new_message {
  type = 2;
  code = 132;
  message_id = 7;
  meta = record no_meta { listener_name = b'u' ∷ []; remote_addr = b'h' ∷ []; received_at = 5 };
}

-- It was not found.
abbrev get_served : Server ℕ ℕ
get_served = record server {
  dedup = record {
    dedup_map = (b'h' ∷ [], (7, record { pending = false; rsp = some get_reply }) ∷ []) ∷ [];
    dedup_delete_after = (b'h' ∷ [], 605) ∷ [];
  };
}

abbrev get_answer : Option Bytes
get_answer = some (0x60 ∷ 132 ∷ 0 ∷ 7 ∷ [])

get_exchanged :
    exchange no_strings callbacks cfg no_links (b'u' ∷ []) (b'h' ∷ []) server get_bytes
    ≡ (get_served, ok get_answer)
unfolding exchange unmarshal_binary parse_body handle_message deduplicate entry_of load handle_new
    get_block1 block_of block_decode option get_block2 is_request path_string path match_routes
    match_parts split join find_route bytes_eq requires_blockwise save store delete put_entry
    make_reply enter raw_reply marshal_binary write_options write_fixed write_marker
    get_special_route stable_sort collect_block1
get_exchanged = refl

exchange_again_example :
    exchange no_strings callbacks cfg_later no_links (b'u' ∷ []) (b'h' ∷ []) get_served get_bytes
    ≡ (get_served, ok get_answer)
exchange_again_example =
    exchange_again no_strings callbacks cfg cfg_later no_links no_links (b'u' ∷ []) (b'h' ∷ [])
      server get_served get_bytes get get_answer get_read (omega arith) get_new get_exchanged

-- A read that fails while the listener is open, and the server's closing.
Reach-IsRead_example : IsRead (close (udp_round listen failed))
unfolding listen
Reach-IsRead_example =
    Reach-IsRead
      (next (next opened (udp listen failed (omega arith))) (closed (udp_round listen failed)))
