-- ===== src/Transfer.antt =====
-- handler.go: the stages of handleMessage that deal with parts of payloads.
-- `now`, the timeouts and the default block size are a record; `links` is what sends the empty
-- acknowledgement of a notification's first block, and the requests for its further blocks. A send
-- takes the tables and gives them back, as it and the other goroutines have changed them.
pub mod Reply
pub mod Upload
use coap.Base.{
  ℕ, zero, ◌+◌, Bool, true, false, List, [], ◌∷◌, Option, none, some, ◌==◌, ◌&&◌, ◌||◌, not,
  if◌then◌else◌, ltb, length, Result, ok, err, panic, stuck, ◌>>=◌, or_panic,
}
use coap.Base.Int.{ℤ, pos, negsuc}
use coap.Options.{Bytes, Value}
use coap.Message.{
  Message, is_request, make_reply, make_reset, type_confirmable, type_non_confirmable,
  type_acknowledgement, type_reset,
}
use coap.Wire.{packet_size}
use coap.Block.{BlockMetadata, get_block1, get_block2, with_block1}
use coap.Cache.{
  Clock, BlockCache, get_block_key, block_cache_put, block_cache_append, block_cache_get,
}
use coap.Dedup.{Dedup, DedupEntry, deduplicate, save}
use coap.Observe.{Links}
use coap.Dispatch.{Callbacks, Tables, acknowledge, block_retreive, dispatch}

pub record Config : Type 0 where
  pub clock : Clock
  pub deduplicate_expiration : ℕ
  pub block_default_size : ℕ

-- `RequiresBlockwise` of message.go, with the options as the size computation sorts them.
unfoldable pub requires_blockwise : Message → Result (Message × Bool)
unfolding packet_size
requires_blockwise m =
    if ltb 0 m.meta.max_message_size
    then (do (m', size) ← packet_size m; ok (m', ltb m.meta.max_message_size size))
    else ok (m, ltb 0 m.meta.block_size && ltb m.meta.block_size (length m.payload))

-- A stage either ends the call with a response or nil, or goes on with the tables, the request and
-- what it leaves in the response's variable.
pub data Stage (C O : Type 0) : Type 0 where
  replied : Tables C O → Option Message → Stage C O
  proceed : Tables C O → Message → Option Message → Stage C O

module _ {C O : Type 0} (to_string_array : List Value → List Bytes) (callbacks : Callbacks C O)
    (cfg : Config) where
  -- What the block cache returned to the last part of an upload.
  abbrev pub reassembled : Tables C O → Message → Result (BlockCache × Message) → Result (Stage C O)
  reassembled t req (ok (cache, m)) =
      ok (proceed (record t { block_cache = cache }) (record req { payload = m.payload }) none)
  reassembled t req (err e) = ok (replied t (some (make_reply req 160 [])))
  reassembled t req panic = panic
  reassembled t req stuck = stuck

  abbrev pub appended :
      Tables C O → Message → BlockMetadata → Result BlockCache → Result (Stage C O)
  appended t req block1 (ok cache) = ok (
      replied (record t { block_cache = cache })
        (some (with_block1 (make_reply req 95 []) (some block1))))
  appended t req block1 (err e) = ok (replied t (some (make_reply req 160 [])))
  appended t req block1 panic = panic
  appended t req block1 stuck = stuck

  -- A part of an upload: the first is stored, those behind it are appended, and the last goes on
  -- with the whole payload.
  unfoldable pub collect_block1 : Tables C O → Message → Option BlockMetadata → Result (Stage C O)
  collect_block1 t req none = ok (proceed t req none)
  collect_block1 t req (some block1) =
      let cache = t.block_cache in
      if not (is_request req)
      then ok (proceed t req none)
      else if (block1.num == 0) && not block1.more
      then ok (proceed t req none)
      else if block1.num == 0
      then appended t req block1 (block_cache_put to_string_array cfg.clock cache req [])
      else if not block1.more
      then reassembled t req (block_cache_get to_string_array cfg.clock cache req (negsuc 0) 0)
      else appended t req block1 (block_cache_append to_string_array cfg.clock cache req block1)

  abbrev pub fetched : Tables C O → Message → Result (BlockCache × Message) → Result (Stage C O)
  fetched t req (ok (cache, m)) = ok (replied (record t { block_cache = cache }) (some m))
  fetched t req (err e) = ok (proceed t req none)
  fetched t req panic = panic
  fetched t req stuck = stuck

  abbrev pub retrieved : Message → Tables C O × Result Message → Result (Stage C O)
  retrieved req (t, ok whole) = ok (proceed t whole none)
  retrieved req (t, err e) = ok (proceed t req (some (make_reset req req.code)))
  retrieved req (t, panic) = panic
  retrieved req (t, stuck) = stuck

  -- The acknowledgement of a notification's first block.
  abbrev pub first_ack : Message → Message
  first_ack req = record (make_reply req 0 []) { token = [] }

  -- An error of the acknowledgement is only logged.
  abbrev pub ack_sent :
      Message
      → Links (Tables C O)
      → Tables C O × Message × Result (Option Message)
      → Result (Stage C O)
  ack_sent req links (t, m, ok rsp) = retrieved req (block_retreive callbacks t req links)
  ack_sent req links (t, m, err e) = retrieved req (block_retreive callbacks t req links)
  ack_sent req links (t, m, panic) = panic
  ack_sent req links (t, m, stuck) = stuck

  -- A further block of a stored response, or the first block of a notification.
  unfoldable pub serve_block2 :
      Tables C O → Message → Links (Tables C O) → Option BlockMetadata → Result (Stage C O)
  serve_block2 t req links none = ok (proceed t req none)
  serve_block2 t req links (some block2) =
      if is_request req
      then fetched t req
          (block_cache_get to_string_array cfg.clock t.block_cache req (pos block2.num) block2.size)
      else if block2.more && (block2.num == 0)
      then ack_sent req links (links.send_to req.meta.remote_addr t (first_ack req))
      else ok (proceed t req none)

  abbrev pub set_block_size : Message → Option BlockMetadata → Option BlockMetadata → Message
  set_block_size req (some block2) block1 = record req {
    meta = record req.meta { block_size = block2.size };
  }
  set_block_size req none (some block1) = record req {
    meta = record req.meta { block_size = block1.size };
  }
  set_block_size req none none = req

  -- The block size of a response: its own, the request's, or the default.
  abbrev pub reply_block_size : Message → Message → ℕ
  reply_block_size req rsp =
      if not (rsp.meta.block_size == 0)
      then rsp.meta.block_size
      else if not (req.meta.block_size == 0)
      then req.meta.block_size
      else cfg.block_default_size

  abbrev pub block_num : Option BlockMetadata → ℕ
  block_num none = 0
  block_num (some block2) = block2.num

  abbrev pub with_some_block1 : Message → Option BlockMetadata → Message
  with_some_block1 rsp none = rsp
  with_some_block1 rsp (some block1) = with_block1 rsp (some block1)

  abbrev pub first_block :
      Tables C O → Message → Result (BlockCache × Message) → Result (Tables C O × Option Message)
  first_block t req (ok (cache, m)) = ok (record t { block_cache = cache }, some m)
  first_block t req (err e) = ok (t, some (make_reply req 160 []))
  first_block t req panic = panic
  first_block t req stuck = stuck

  abbrev pub store_reply :
      Tables C O → Message → ℤ → ℕ → Message → Bool → Result (Tables C O × Option Message)
  store_reply t req num size rsp false = ok (t, some rsp)
  store_reply t req num size rsp true = do
    key ← or_panic (get_block_key to_string_array req)
    cache ← block_cache_put to_string_array cfg.clock t.block_cache rsp key
    first_block (record t { block_cache = cache }) req
        (block_cache_get to_string_array cfg.clock cache req num size)

  -- A response that is too large is stored under the request's key, and a block of it is sent.
  unfoldable pub split_reply :
      Tables C O
      → Message
      → Option BlockMetadata
      → Option BlockMetadata
      → Option Message
      → Result (Tables C O × Option Message)
  unfolding requires_blockwise
  split_reply t req block1 block2 none = ok (t, none)
  split_reply t req block1 block2 (some rsp) =
      requires_blockwise (with_some_block1 rsp block1) >>= λ (rsp', large).
      store_reply t req (pos (block_num block2)) (reply_block_size req rsp) rsp' large
