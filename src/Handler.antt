-- ===== src/Handler.antt =====
-- handler.go: handleMessage, from a received message to its reply.
-- The response that is saved for duplicates shares its metadata with the reply; they are written
-- over before each use, and are here those of the first reply.
pub mod Once
pub mod Answer
pub mod Large
pub mod Notified
pub mod Lifetime
pub mod Activity
pub mod Retrieved
pub mod Calm
use coap.Observe.{Links}
use coap.Base.{
  ℕ, Bool, true, false, List, Option, none, some, ◌==◌, ◌||◌, if◌then◌else◌, Result, ok, ◌>>=◌,
}
use coap.Options.{Bytes, Value}
use coap.Message.{Message, type_confirmable, type_non_confirmable, type_acknowledgement, type_reset}
use coap.Block.{BlockMetadata, get_block1, get_block2}
use coap.Dedup.{Dedup, DedupEntry, deduplicate, save}
use coap.Dispatch.{Callbacks, Tables, acknowledge, dispatch}
use coap.Transfer.{
  Config, Stage, replied, proceed, collect_block1, serve_block2, split_reply, set_block_size,
}

pub record Server (C O : Type 0) : Type 0 where
  pub dedup : Dedup
  pub tables : Tables C O

-- The deferred function: the response gets the request's metadata and the time.
abbrev pub stamp : Config → Message → Option Message → Option Message
stamp cfg req none = none
stamp cfg req (some rsp) =
    some (record rsp { meta = record req.meta { received_at = cfg.clock.now } })

module _ {C O : Type 0} (to_string_array : List Value → List Bytes) (callbacks : Callbacks C O)
    (cfg : Config) where
  -- `handleMessage` behind the table of message ids.
  abbrev finish :
      Option BlockMetadata
      → Option BlockMetadata
      → Message
      → Tables C O × Option Message
      → Result (Tables C O × Option Message)
  finish block1 block2 req (t, rsp) =
      split_reply to_string_array callbacks cfg t req block1 block2 rsp >>= λ (t', rsp').
      ok (t', stamp cfg req rsp')

  abbrev answer :
      Option BlockMetadata
      → Option BlockMetadata
      → Message
      → Stage C O
      → Result (Tables C O × Option Message)
  answer block1 block2 req (replied t rsp) = ok (t, stamp cfg req rsp)
  answer block1 block2 req (proceed t req' rsp) =
      let sized = set_block_size to_string_array callbacks cfg req' block2 block1 in
      dispatch callbacks t sized rsp >>= finish block1 block2 sized

  abbrev after_ack :
      Option BlockMetadata
      → Links (Tables C O)
      → Message
      → Tables C O × Bool
      → Result (Tables C O × Option Message)
  after_ack block1 links req (t, true) = ok (t, none)
  after_ack block1 links req (t, false) =
      serve_block2 to_string_array callbacks cfg t req links (get_block2 req)
      >>= answer block1 (get_block2 req) req

  abbrev after_block1 :
      Option BlockMetadata
      → Links (Tables C O)
      → Message
      → Stage C O
      → Result (Tables C O × Option Message)
  after_block1 block1 links req (replied t rsp) = ok (t, stamp cfg req rsp)
  after_block1 block1 links req (proceed t req' rsp) =
      after_ack block1 links req'
        (if req'.type == type_acknowledgement then acknowledge callbacks t req' else (t, false))

  unfoldable pub handle_new :
      Links (Tables C O) → Tables C O → Message → Result (Tables C O × Option Message)
  unfolding collect_block1 serve_block2 split_reply dispatch
  handle_new links t req =
      collect_block1 to_string_array callbacks cfg t req (get_block1 req)
      >>= after_block1 (get_block1 req) links req

  -- A new message is handled, and its response is saved.
  abbrev pub saved : Dedup → Message → Tables C O × Option Message → Server C O × Option Message
  saved d req (t, none) = (record { dedup = d; tables = t }, none)
  saved d req (t, some rsp) =
      (record { dedup = save d req.meta.remote_addr req.message_id rsp; tables = t }, some rsp)

  abbrev pub after_deduplicate :
      Links (Tables C O)
      → Server C O
      → Message
      → Dedup × DedupEntry × Bool
      → Result (Server C O × Option Message)
  after_deduplicate links s req (d, entry, true) =
      handle_new links s.tables req >>= λ r. ok (saved d req r)
  after_deduplicate links s req (d, entry, false) =
      ok (record s { dedup = d }, if entry.pending then none else stamp cfg req entry.rsp)

  -- `handleMessage`
  unfoldable pub handle_message :
      Links (Tables C O) → Server C O → Message → Result (Server C O × Option Message)
  handle_message links s req =
      if req.type == type_reset
      then ok (s, none)
      else if (req.type == type_confirmable) || (req.type == type_non_confirmable)
      then after_deduplicate links s req (deduplicate cfg.deduplicate_expiration s.dedup req)
      else (handle_new links s.tables req >>= λ (t, rsp). ok (record s { tables = t }, rsp))
