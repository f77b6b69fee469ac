-- ===== src/Transfer/Reply.antt =====
-- handler.go: a response that is too large for one message.
use coap.Base.{
  ℕ, ◌+◌, ◌*◌, ◌≤◌, ◌<◌, ◌≡◌, refl, ◌∙◌, ap, true, List, ◌∷◌, ◌++◌, none, some, length, drop, ok,
  arith,
}
use coap.Base.Maps.{store, string_key, load-store_self}
use coap.Options.{Bytes, Value}
use coap.Message.{Message}
use coap.Cache.{
  BlockCacheEntry, BlockCache, get_block_key, block_cache_store, block_cache_put, cut_block, touch,
  deadline,
}
use coap.Cache.Responses.{
  fetch_blocks, fetch_blocks-from, block_cache_get-hit, payload-cut_block, block_payload-append,
}
use coap.Dispatch.{Callbacks, Tables}
use coap.Transfer.{Config, requires_blockwise, split_reply, reply_block_size}

module _ {C O : Type 0} (to_string_array : List Value → List Bytes) (callbacks : Callbacks C O)
    (cfg : Config) where
  pub requires_blockwise-large :
      (rsp : Message)
      → rsp.meta.max_message_size ≡ 0
      → 0 < rsp.meta.block_size
      → rsp.meta.block_size < length rsp.payload
      → requires_blockwise rsp ≡ ok (rsp, true)
  unfolding requires_blockwise
  requires_blockwise-large rsp h0 h1 h2 = ground arith

  -- A request without block options, with a key that is not empty, and a response with a block
  -- size of its own that is positive, no limit on the message size and a payload larger than the
  -- block size: the reply is the first block, and a client that then asks for the blocks 1, 2, …
  -- with requests of the same key, as many as the payload has, collects what the first block
  -- lacks.
  split_reply_complete :
      (t : Tables C O) (req again rsp : Message) (k c : ℕ) (key : Bytes)
      → rsp.meta.max_message_size ≡ 0
      → 0 < rsp.meta.block_size
      → rsp.meta.block_size < length rsp.payload
      → get_block_key to_string_array req ≡ some (c ∷ key)
      → get_block_key to_string_array again ≡ some (c ∷ key)
      → k * rsp.meta.block_size ≤ length rsp.payload
      → length rsp.payload ≤ rsp.meta.block_size + k * rsp.meta.block_size
      → (t' : Tables C O) × (first : Message) × (cache : BlockCache) × (rest : Bytes) × (split_reply
            to_string_array callbacks cfg t req none none
            (some rsp)
          ≡ ok (t', some first))
        × (fetch_blocks to_string_array cfg.clock again rsp.meta.block_size k 1 t'.block_cache
            ≡ ok (cache, rest))
        × (first.payload ++ rest ≡ rsp.payload)
  unfolding split_reply block_cache_put block_cache_store
  split_reply_complete t req again rsp k c key h0 h1 h2 er ea hi lo =
      let sz = rsp.meta.block_size in
      let bce : BlockCacheEntry = record { rsp = rsp; last = 0; expires = deadline cfg.clock } in
      let cache0 = store (c ∷ key) bce t.block_cache in
      let cache1 = store (c ∷ key) (touch cfg.clock bce) cache0 in
      let start : 0 * sz ≡ 0 = omega arith in
      let own : reply_block_size to_string_array callbacks cfg req rsp ≡ sz = ground arith in
      let (cache2, rest) =
        fetch_blocks-from to_string_array cfg.clock again sz k 1 cache1 (c ∷ key)
          (touch cfg.clock bce) ea (load-store_self (c ∷ key) (touch cfg.clock bce) cache0)
          (omega arith) (omega arith) in
      let got =
        block_cache_get-hit to_string_array cfg.clock req sz cache0 (c ∷ key) bce 0 er
          (load-store_self (c ∷ key) bce t.block_cache) (omega arith) in
      (
        record t { block_cache = cache1 },
        cut_block req rsp 0 sz,
        cache2,
        drop (1 * sz) rsp.payload,
        rw (requires_blockwise-large rsp h0 h1 h2) (rw er (rw own (rw got refl))),
        rest,
        rw (payload-cut_block req rsp 0 sz) (
            block_payload-append rsp.payload 0 sz (omega arith)
            ∙ ap (λ (n : ℕ). drop n rsp.payload) start),
      )
