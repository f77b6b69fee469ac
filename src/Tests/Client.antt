-- ===== src/Tests/Client.antt =====
-- send.go against the server of handler.go, at concrete messages.
use coap.Base.{
  ℕ, ◌≡◌, refl, ◌++◌, List, [], ◌∷◌, Option, none, some, true, arith, ok, length, bytes_eq,
}
use coap.Base.Int.{pos}
use coap.Options.{Bytes, Value, text}
use coap.Message.{
  Message, new_message, no_meta, make_reply, option, options, join, split, assert_strings,
}
use coap.Block.{get_block2, get_block, block_of, block_decode, size_code}
use coap.Route.{Routes, leaf, node, entry, match_routes, match_parts, find_route}
use coap.Dispatch.{Callbacks, Tables}
use coap.Transfer.{Config}
use coap.Client.{SendOptions, send_message}
use coap.Client.Server.{serve}
use coap.Client.Answered.{Served}
use coap.Client.Whole.{send_message-served}
use coap.Client.Retrieval.{send_message-downloaded}

abbrev no_strings : List Value → List Bytes
no_strings vs = []

-- The callback answers with the length of the payload.
abbrev measure : Message → Message
measure req = record (make_reply req 68 (length req.payload ∷ [])) {
  meta = record no_meta { block_size = 16 };
}

abbrev answer_measure : ℕ → Message → Option Message
answer_measure c req = some (measure req)

abbrev callbacks : Callbacks ℕ ℕ
callbacks = record { call = answer_measure; notify = λ o m. true; not_found = none }

abbrev cfg : Config
cfg = record {
  clock = record { now = 5; block_inactivity_timeout = 120 };
  deduplicate_expiration = 600;
  block_default_size = 1024;
}

abbrev routes : Routes ℕ
routes = entry (b'a' ∷ []) (node [] (some 0) leaf) leaf

abbrev tables : Tables ℕ ℕ
tables = record {
  block_cache = [];
  pending = record {
    pending_map = [];
    pending_mid_map = [];
    pending_msg_id = 1;
    channels = [];
    next_entry = 0;
  };
  observations = [];
  routes = routes;
}

abbrev five : Bytes
five = 1 ∷ 2 ∷ 3 ∷ 4 ∷ 5 ∷ []

-- A PUT of 36 bytes.
abbrev put : Message
put = record new_message {
  code = 3;
  payload = 6 ∷ five ++ (five ++ (five ++ (five ++ (five ++ (five ++ five)))));
  opts = record { id = 11; value = text (b'a' ∷ []) } ∷ [];
}

abbrev from_peer : Bytes
from_peer = b'p' ∷ []

abbrev send_options : SendOptions
send_options = record {
  max_retransmit = pos 3;
  block_size = 16;
  max_message_size = 0;
  n_start = pos 1;
}

abbrev served : Served callbacks 0
unfolding make_reply get_block2 get_block block_of option block_decode
served = record {
  result = measure;
  answers = λ req. refl;
  unlimited = λ req. refl;
  small = λ req. omega arith;
  plain = λ req. refl;
}

a_route : match_routes (join 47 ((b'a' ∷ []) ∷ [])) routes none ≡ (some 0, none)
unfolding match_routes match_parts split join find_route bytes_eq
a_route = refl

send_message-served_example :
    (t' : Tables ℕ ℕ) × (m' : Message) × (rsp : Message) × (req : Message) × (send_message
        (serve no_strings callbacks cfg from_peer)
        3
        send_options
        from_peer
        tables
        put
      ≡ (t', m', ok (some rsp)))
    × (req.payload ≡ put.payload)
    × (req.path_vars ≡ none)
    × (rsp.code ≡ (measure req).code)
    × (rsp.payload ≡ (measure req).payload)
unfolding options assert_strings size_code make_reply served
send_message-served_example =
    send_message-served no_strings callbacks cfg from_peer 16 3 (text (b'a' ∷ []) ∷ []) []
      ((b'a' ∷ []) ∷ []) refl routes 0 none a_route served (omega arith) (omega arith) refl 3
      send_options tables put refl ((refl, refl, refl, refl), refl) (omega arith) (omega arith)
      (omega arith) (omega arith)

-- Content of 36 bytes, in blocks of 16.
abbrev large : Message
large = record new_message {
  type = 2;
  code = 69;
  payload = put.payload;
  meta = record no_meta { block_size = 16 };
}

abbrev answer_large : ℕ → Message → Option Message
answer_large c req = some large

abbrev large_callbacks : Callbacks ℕ ℕ
large_callbacks = record { call = answer_large; notify = λ o m. true; not_found = none }

abbrev get : Message
get = record new_message { code = 1; opts = record { id = 11; value = text (b'a' ∷ []) } ∷ [] }

send_message-downloaded_example :
    (t' : Tables ℕ ℕ) × (m' : Message) × (rsp : Message) × (send_message
        (serve no_strings large_callbacks cfg from_peer)
        2
        send_options
        from_peer
        tables
        get
      ≡ (t', m', ok (some rsp)))
    × (rsp.payload ≡ large.payload)
unfolding options assert_strings size_code
send_message-downloaded_example =
    send_message-downloaded no_strings large_callbacks cfg from_peer 16 1 (text (b'a' ∷ []) ∷ []) []
      ((b'a' ∷ []) ∷ []) refl (omega arith) (omega arith) refl 2 send_options tables get large b'p'
      [] 0 none refl ((refl, refl, refl, refl), refl) refl (omega arith) a_route refl refl refl
      (omega arith) (omega arith) (omega arith) (omega arith)
