-- ===== src/Cache/Requests.antt =====
-- blockCachePut, blockCacheAppend and blockCacheGet of blockwise.go: a request that arrives block by
-- block.
use coap.Base.{
  ℕ, ◌+◌, ◌≡◌, refl, sym, ap, ◌∙◌, true, List, [], ◌∷◌, ◌++◌, some, Result, ok, ◌>>=◌, arith,
  append-nil, append_assoc,
}
use coap.Base.Int.{negsuc}
use coap.Base.Maps.{load, store, string_key, load-store_self}
use coap.Options.{Bytes, Value}
use coap.Message.{Message}
use coap.Block.{block_init}
use coap.Cache.{
  get_block_key, BlockCacheEntry, BlockCache, Clock, deadline, extend, append_entry, join_blocks,
  get_entry, touch, block_cache_store, block_cache_put, block_cache_append, block_cache_get,
}

-- The requests of an upload between the first and the last, each with its time.
abbrev pub Parts : Type 0
Parts = List (Clock × Message)

abbrev pub payloads : Parts → Bytes
payloads [] = []
payloads ((c, m) ∷ ps) = m.payload ++ payloads ps

module _ (to_string_array : List Value → List Bytes) (sz : ℕ) where
  abbrev pub HasKey : Bytes → Parts → Type 0
  HasKey key [] = Unit {0}
  HasKey key ((c, m) ∷ ps) = (get_block_key to_string_array m ≡ some key) × HasKey key ps

  -- The parts are appended under the block numbers `n`, `n + 1`, ….
  unfoldable pub append_all : ℕ → Parts → BlockCache → Result BlockCache
  append_all n [] cache = ok cache
  append_all n ((c, m) ∷ ps) cache = do
    cache ← block_cache_append to_string_array c cache m (block_init n true sz)
    append_all (n + 1) ps cache

  -- A whole upload: the first block is put, the next are appended, and the last is joined on. The
  -- result is the message that `blockCacheGet` gives for the last block.
  unfoldable pub upload :
      Clock → Message → Parts → Clock → Message → BlockCache → Result (BlockCache × Message)
  upload c0 first parts c1 last cache = do
    cache ← block_cache_put to_string_array c0 cache first []
    cache ← append_all 1 parts cache
    block_cache_get to_string_array c1 cache last (negsuc 0) 0

  pub append-hit :
      (c : Clock) (cache : BlockCache) (m : Message) (key : Bytes) (bce : BlockCacheEntry) (num : ℕ)
      → get_block_key to_string_array m ≡ some key
      → load key cache ≡ some bce
      → num ≡ bce.last + 1
      → block_cache_append to_string_array c cache m (block_init num true sz)
        ≡ ok (store key (extend to_string_array c bce num m.payload) cache)
  unfolding block_cache_append append_entry block_init
  append-hit c cache m key bce num ek el en = rw ek (rw el (ground arith))

  append_all-load :
      (ps : Parts) (n : ℕ) (cache : BlockCache) (key : Bytes) (bce : BlockCacheEntry)
      → HasKey key ps
      → load key cache ≡ some bce
      → n ≡ bce.last + 1
      → (cache' : BlockCache) × (bce' : BlockCacheEntry) × (append_all n ps cache ≡ ok cache')
        × (load key cache' ≡ some bce')
        × (bce'.rsp.payload ≡ bce.rsp.payload ++ payloads ps)
  unfolding append_all
  append_all-load [] n cache key bce hk el en =
      (cache, bce, refl, el, sym (append-nil bce.rsp.payload))
  append_all-load ((c, m) ∷ ps) n cache key bce (ek, hk) el en =
      let bce1 = extend to_string_array c bce n m.payload in
      let cache1 = store key bce1 cache in
      let (cache', bce', e, l, p) =
        append_all-load ps (n + 1) cache1 key bce1 hk (load-store_self key bce1 cache) refl in
      (
        cache',
        bce',
        rw (append-hit c cache m key bce n ek el en) e,
        l,
        p ∙ append_assoc bce.rsp.payload m.payload (payloads ps),
      )

  -- An upload whose blocks come in order, all under one key, gives the last request's answer a
  -- message with the payloads of all blocks in their order, however many there are and whatever the
  -- cache held before.
  upload-payload :
      (c0 : Clock) (first : Message) (parts : Parts) (c1 : Clock) (last : Message)
      (cache : BlockCache) (key : Bytes)
      → get_block_key to_string_array first ≡ some key
      → HasKey key parts
      → get_block_key to_string_array last ≡ some key
      → (cache' : BlockCache) × (m : Message) × (upload c0 first parts c1 last cache
          ≡ ok (cache', m))
        × (m.payload ≡ first.payload ++ (payloads parts ++ last.payload))
  unfolding upload block_cache_put block_cache_get block_cache_store get_entry join_blocks
  upload-payload c0 first parts c1 last cache key e0 hk e1 =
      let bce : BlockCacheEntry = record { rsp = first; last = 0; expires = deadline c0 } in
      let cache0 = store key bce cache in
      let (cache1, bce1, ea, l, p) =
        append_all-load parts 1 cache0 key bce hk (load-store_self key bce cache) (omega arith) in
      (
        store key (touch c1 bce1) cache1,
        join_blocks last bce1.rsp,
        rw e0 (rw ea (rw e1 (rw l refl))),
        ap (λ (b : Bytes). b ++ last.payload) p
            ∙ append_assoc first.payload (payloads parts) last.payload,
      )
