-- ===== src/Tests/Observing.antt =====
-- Observe and the log at concrete input.
use coap.Observe.{no_links}
use coap.Options.{Bytes, Value, uint32}
use coap.Dispatch.{Callbacks, Tables}
use coap.Transfer.{Config}
use coap.Route.{leaf}
use coap.Handler.{handle_new, stamp}
use coap.Handler.Notified.{observations_table, verdict, observe-handle_new}
use coap.Block.{get_block1}
use coap.Names.{codes, decimal, digits, hex_digit}
use coap.Log.{
  default_log_func, location, error_suffix, hex_text, set_log_level, log_level_info, log_level_warn,
  log_debug, log_warn,
}
use coap.Base.{
  List, Option, true, ◌==◌, arith, Error, timeout, bytes_eq, ℕ, ◌≡◌, refl, [], ◌∷◌, none, some, ok,
}
use coap.Base.Int.{pos, negsuc}
use coap.Base.Maps.{store, string_key, number_key}
use coap.Message.{option, with_path_string, with_path, Message, new_message, no_meta}
use coap.Transfer.{requires_blockwise}
use coap.Block.{get_block2, block_of, block_decode}
use coap.Errors.{rsp_code_to_error}
use coap.Observe.{observe_register}
use coap.Observe.Remote.{observe, observe_request}
use coap.Client.{SendOptions, send_message}
use coap.Observe.{Sender}

-- A peer that answers everything with content, and takes no note of it.
abbrev content : Message
content = record new_message { type = 2; code = 69; token = 4 ∷ [] }

abbrev answer_content : Sender (Tables ℕ ℕ)
answer_content s m = (s, record m { token = 4 ∷ [] }, ok (some content))

abbrev no_strings : List Value → List Bytes
no_strings vs = []

abbrev no_answer : ℕ → Message → Option Message
no_answer c req = none

-- The callback 9 takes every notification, and the others none.
abbrev callbacks : Callbacks ℕ ℕ
callbacks = record { call = no_answer; notify = λ o m. o == 9; not_found = none }

abbrev cfg : Config
cfg = record {
  clock = record { now = 5; block_inactivity_timeout = 120 };
  deduplicate_expiration = 600;
  block_default_size = 1024;
}

abbrev tables : Tables ℕ ℕ
tables = record {
  block_cache = [];
  pending = record {
    pending_map = [];
    pending_mid_map = [];
    pending_msg_id = 1;
    channels = [];
    next_entry = 0;
  };
  observations = [];
  routes = leaf;
}

abbrev send_options : SendOptions
send_options = record {
  max_retransmit = pos 3;
  block_size = 64;
  max_message_size = 0;
  n_start = pos 1;
}

abbrev observed : Tables ℕ ℕ
observed = record tables { observations = (4 ∷ [], record { path = b'a' ∷ []; callback = 9 }) ∷ [] }

observe-content :
    observe observations_table answer_content 1 send_options
      (b'h' ∷ [])
      1
      (b'a' ∷ [])
      none
      (negsuc 0)
      9
      tables
    ≡ (observed, ok (4 ∷ [], content))
unfolding observe send_message requires_blockwise observe_request with_path_string with_path
    get_block2 block_of block_decode option rsp_code_to_error observe_register store
observe-content = refl

abbrev notification : Message
notification = record new_message {
  code = 69;
  token = 4 ∷ [];
  opts = record { id = 6; value = uint32 2 } ∷ [];
}

observe-handle_new_example :
    handle_new no_strings callbacks cfg no_links observed notification
    ≡ ok (observed, stamp cfg notification (some (verdict notification true)))
unfolding get_block1 get_block2 block_of block_decode option
observe-handle_new_example =
    observe-handle_new no_strings callbacks cfg answer_content 1 send_options (b'h' ∷ []) 1
      (b'a' ∷ []) none (negsuc 0) 9 tables observed (4 ∷ []) content notification no_links 2
      observe-content refl refl (omega arith) refl refl refl

-- At the level `info`, warnings are logged and debug lines are not.
info_debug : log_debug (set_log_level log_level_info) none none (1 ∷ []) ≡ none
unfolding log_debug set_log_level bytes_eq
info_debug = refl

info_warn :
    log_warn (set_log_level log_level_info) none none (1 ∷ [])
    ≡ some (record { level = log_level_warn; msg = none; error = none; text = 1 ∷ [] })
unfolding log_warn set_log_level bytes_eq
info_warn = refl

abbrev timed_out : Error → Bytes
timed_out e = codes "timeout"

text_of_message :
    default_log_func timed_out (record {
      level = codes "warn";
      msg = some (record content {
        message_id = 123;
        meta = record no_meta { remote_addr = codes "h:1" };
      });
      error = some timeout;
      text = codes "sent";
    })
    ≡ codes " [warn] [h:1][123][04] sent(err: timeout)"
unfolding default_log_func location error_suffix hex_text hex_digit decimal digits
text_of_message = refl

text_of_local_message :
    default_log_func timed_out
      (record { level = codes "info"; msg = some content; error = none; text = codes "sent" })
    ≡ codes " [info] [] sent"
unfolding default_log_func location error_suffix
text_of_local_message = refl
