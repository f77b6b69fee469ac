-- ===== src/Tests/Notifying.antt =====
-- A notification in blocks at concrete input: this server asks another one of its kind for the rest.
use coap.Base.{
  ℕ, ◌≡◌, ◌≤◌, ◌<◌, ◌*◌, ◌^◌, refl, ap, ◌==◌, List, [], ◌∷◌, Option, none, some, true, false, arith,
  Result, ok, length, bytes_eq, if◌then◌else◌, take, length,
}
use coap.Base.Int.{negsuc}
use coap.Base.Maps.{load, string_key}
use coap.Options.{Bytes, Value, text, octets}
use coap.Message.{
  Message, new_message, no_meta, option, options, join, split, assert_strings, accept,
  with_path_string, strip_slashes, with_path, with_content_format, with_option, make_reply,
}
use coap.Names.{codes, code_name, name_in}
use coap.Block.{
  size_bits, more_bit, last_byte, with_block2, with_block, block_init, get_block1, get_block2,
  get_block, block_of, block_decode, size_code, encode,
}
use coap.Block.Codec.{IsBlockSize}
use coap.Cache.{BlockCacheEntry}
use coap.Cache.Responses.{block_payload}
use coap.Route.{leaf}
use coap.Dispatch.{Callbacks, Tables}
use coap.Transfer.{Config, set_block_size}
use coap.Observe.{Sender, Links, Observation, block_request}
use coap.Client.Server.{serve}
use coap.Client.Fetch.{Provider, is_followed}
use coap.Client.Download
use coap.Handler.{handle_new, stamp}
use coap.Handler.Retrieved.{handle_new-retrieved, retrieved_answer}

abbrev no_strings : List Value → List Bytes
no_strings vs = []

abbrev no_answer : ℕ → Message → Option Message
no_answer c req = none

-- The callback takes the notification if it has 36 bytes.
abbrev callbacks : Callbacks ℕ ℕ
callbacks = record { call = no_answer; notify = λ o m. length m.payload == 36; not_found = none }

abbrev cfg : Config
cfg = record {
  clock = record { now = 5; block_inactivity_timeout = 120 };
  deduplicate_expiration = 600;
  block_default_size = 1024;
}

abbrev tables : Tables ℕ ℕ
tables = record {
  block_cache = [];
  pending = record {
    pending_map = [];
    pending_mid_map = [];
    pending_msg_id = 1;
    channels = [];
    next_entry = 0;
  };
  observations = [];
  routes = leaf;
}

abbrev content : Bytes
content = codes "0123456789abcdefghijklmnopqrstuvwxyz"

abbrev stored : BlockCacheEntry
stored = record {
  rsp = record new_message { type = 2; code = 69; payload = content };
  last = 0;
  expires = 125;
}

-- The other server, which knows this one as `p` and has the content of `a` for it.
abbrev origin : Tables ℕ ℕ
origin = record tables { block_cache = (codes "pGETa", stored) ∷ [] }

abbrev ask : Sender (Tables ℕ ℕ)
ask = serve no_strings callbacks cfg (codes "p")

-- It answers all but acknowledgements, each time from the same tables.
abbrev ask_origin : Sender (Tables ℕ ℕ)
ask_origin t m =
    if m.code == 0 then (t, m, ok none) else (let (_, m', r) = ask origin m in (t, m', r))

abbrev links : Links (Tables ℕ ℕ)
links = record { rounds = 2; send_to = λ addr. ask_origin }

abbrev observation : Observation ℕ
observation = record { path = codes "a"; callback = 9 }

abbrev observed : Tables ℕ ℕ
observed = record tables { observations = (4 ∷ [], observation) ∷ [] }

abbrev path_value : List Value
path_value = text (codes "a") ∷ []

one_part : assert_strings path_value ≡ some (codes "a" ∷ [])
unfolding assert_strings
one_part = refl

in_format : IsBlockSize 16
unfolding size_code
in_format = refl

abbrev IsFor : Message → Type 0
IsFor =
    Download.IsFor no_strings callbacks cfg (codes "p") 16 1 path_value [] (codes "a" ∷ []) one_part
      (omega arith) (omega arith) in_format

abbrev Serves : Tables ℕ ℕ → Type 0
Serves t = load (4 ∷ []) t.observations ≡ some observation

origin-Serves :
    Download.Serves no_strings callbacks cfg
      (codes "p")
      16
      1
      path_value
      []
      (codes "a" ∷ [])
      one_part
      (omega arith)
      (omega arith)
      in_format
      content
      origin
unfolding load bytes_eq code_name name_in join
origin-Serves = (stored, refl, refl)

ask_block :
    (t : Tables ℕ ℕ) (m : Message) (num : ℕ)
    → Serves t
    → IsFor m
    → get_block2 m ≡ some (block_init num false 16)
    → num * 16 ≤ length content
    → num < 2 ^ 20
    → (t' : Tables ℕ ℕ) × (m' : Message) × (rsp : Message) × (ask_origin t m
        ≡ (t', m', ok (some rsp)))
      × (rsp.payload ≡ block_payload content num 16)
      × (get_block2 rsp ≡ some (block_init num (is_followed ask_origin 16 content num) 16))
      × IsFor m'
      × Serves t'
ask_block t m num ht ((et, ec, ep, eq), e1) eb lo hn =
    let (o', m', rsp, e, pay, told, hf, hs) =
      Download.serve-block no_strings callbacks cfg (codes "p") 16 1 path_value [] (codes "a" ∷ [])
        one_part (omega arith) (omega arith) in_format content origin m num origin-Serves
        ((et, ec, ep, eq), e1) eb lo hn in
    let asks_code : (m.code == 0) ≡ false = ground arith in
    (
      t,
      m',
      rsp,
      rw asks_code (ap (λ (r : Tables ℕ ℕ × Message × Result (Option Message)). (t, r.1, r.2)) e),
      pay,
      told,
      hf,
      ht,
    )

abbrev provider : Provider ask_origin 16 content
provider = record {
  IsFor = IsFor;
  Serves = Serves;
  numbered_is_for =
      Download.IsFor-with_block2 no_strings callbacks cfg (codes "p") 16 1 path_value []
        (codes "a" ∷ []) one_part (omega arith) (omega arith) in_format;
  block = ask_block;
}

abbrev notification : Message
notification = record new_message {
  code = 69;
  token = 4 ∷ [];
  payload = take 16 content;
  opts = record { id = 23; value = octets (encode (block_init 0 true 16)) } ∷ [];
  meta = record no_meta { remote_addr = codes "o" };
}

asks : (k : ℕ) → IsFor (block_request (codes "a") (negsuc 0) k 16)
unfolding block_request with_path_string with_path with_content_format with_block2 with_block
    with_option options bytes_eq split strip_slashes
asks k = ((refl, refl, refl, refl), refl)

handle_new-retrieved_example :
    let whole = record notification { payload = content; type = 2 } in
    let sized = set_block_size no_strings callbacks cfg whole (get_block2 notification) none in
    (t : Tables ℕ ℕ) × (handle_new no_strings callbacks cfg links observed notification
      ≡ ok (
        t,
        stamp cfg sized
            (retrieved_answer no_strings callbacks cfg sized (callbacks.notify 9 sized)),
      ))
    × Serves t
unfolding get_block1 get_block2 get_block block_of block_decode option accept encode block_init
    size_bits more_bit last_byte size_code make_reply load bytes_eq
handle_new-retrieved_example =
    handle_new-retrieved no_strings callbacks cfg links observed observed notification
      (record (make_reply notification 0 []) { token = [] }) (ok none) observation 16 (negsuc 0)
      content provider in_format (omega arith) (omega arith) refl refl refl refl tt refl (λ s h. h)
      asks refl (omega arith) (omega arith) (omega arith)
