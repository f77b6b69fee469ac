-- ===== src/Cache.antt =====
-- blockwise.go: the server's cache of messages that travel block by block.
-- `s.blockCache` is a map from the key of a request to an entry. An entry is shared by pointer in
-- the source; here each operation returns the map with the entry as the operation leaves it.
-- `tox.ToStringArray`, which is not part of this repository, is a parameter, and so is the time.
pub mod Sendable
pub mod Requests
pub mod Responses
pub mod Keys
use Prim.Native.String.{String}
use coap.Base.{
  ℕ, suc, ◌+◌, ◌-◌, ◌*◌, Bool, true, false, List, [], ◌∷◌, ◌++◌, Option, none, some, ltb, leb, ◌==◌,
  if◌then◌else◌, length, take, drop, not, Result, ok, err, panic, ◌>>=◌, or_panic, block_not_found,
  block_number_mismatch, block_overflow,
}
use coap.Base.Int.{ℤ, pos, negsuc}
use coap.Base.Maps.{load, store, delete, string_key}
use coap.Options.{Bytes, Value, opt_uri_query}
use coap.Message.{Message, Metadata, no_meta, options, path_string, join, with_size2}
use coap.Names.{code_name}
use coap.Block.{BlockMetadata, block_init, with_block1, with_block2}

-- `QueryString`, with the strings that the library makes of the values.
unfoldable pub query_string : (List Value → List Bytes) → Message → Bytes
query_string to_string_array m = join b'&' (to_string_array (options m opt_uri_query))

-- `getBlockKey`; `none` is the panic of `PathString`.
unfoldable pub get_block_key : (List Value → List Bytes) → Message → Option Bytes
get_block_key to_string_array m = elim (path_string m) [
  | none ↦ none
  | some path ↦
      some (m.meta.remote_addr ++ (code_name m.code ++ (path ++ query_string to_string_array m)))
]

pub record BlockCacheEntry : Type 0 where
  pub rsp : Message
  pub last : ℕ
  pub expires : ℕ

abbrev pub BlockCache : Type 0
BlockCache = List (Bytes × BlockCacheEntry)

-- The time and `s.config.BlockInactivityTimeout`.
pub record Clock : Type 0 where
  pub now : ℕ
  pub block_inactivity_timeout : ℕ

abbrev pub deadline : Clock → ℕ
deadline c = c.now + c.block_inactivity_timeout

abbrev or_not_found : Option BlockCacheEntry → Result BlockCacheEntry
or_not_found none = err block_not_found
or_not_found (some bce) = ok bce

-- `blockCachePut` under a key that is not empty.
unfoldable pub block_cache_store : Clock → BlockCache → Message → Bytes → BlockCache
block_cache_store c cache req key =
    store key (record { rsp = req; last = 0; expires = deadline c }) cache

-- `blockCacheGet`, behind its lookup, for a block of a response: the block is cut out, and the
-- number of the whole and the block's own description are added to the options.
unfoldable pub cut_block : Message → Message → ℕ → ℕ → Message
cut_block req rsp num sz =
    let whole = rsp.payload in
    let more = ltb (num * sz + sz) (length whole) in
    let block_size = if more then sz else length whole - num * sz in
    let cut = record rsp { payload = take block_size (drop (num * sz) whole) } in
    let sized = if num == 0 then with_size2 cut (pos (length whole)) else cut in
    let told = with_block2 sized (some (block_init num more sz)) in
    let bare = if ltb 0 num then with_block1 told none else told in
    record bare { meta = no_meta; token = req.token; message_id = req.message_id }

-- For a negative number: all that is stored, and the request's own payload behind it.
unfoldable pub join_blocks : Message → Message → Message
join_blocks req rsp = record rsp {
  payload = rsp.payload ++ req.payload;
  meta = no_meta;
  token = req.token;
  message_id = req.message_id;
}

abbrev pub touch : Clock → BlockCacheEntry → BlockCacheEntry
touch c bce = record bce { expires = deadline c }

unfoldable pub get_entry :
    Clock → BlockCache → Bytes → Message → ℤ → ℕ → BlockCacheEntry → Result (BlockCache × Message)
get_entry c cache key req (pos num) sz bce =
    if ltb (length bce.rsp.payload) (num * sz)
    then err block_overflow
    else ok (store key (touch c bce) cache, cut_block req bce.rsp num sz)
get_entry c cache key req (negsuc _) sz bce =
    ok (store key (touch c bce) cache, join_blocks req bce.rsp)

module _ (to_string_array : List Value → List Bytes) where
  -- An empty key stands for the request's own.
  unfoldable pub block_cache_put : Clock → BlockCache → Message → Bytes → Result BlockCache
  unfolding block_cache_store
  block_cache_put c cache req [] = do
    key ← or_panic (get_block_key to_string_array req)
    ok (block_cache_store c cache req key)
  block_cache_put c cache req (k ∷ key) = ok (block_cache_store c cache req (k ∷ key))

  abbrev pub extend : Clock → BlockCacheEntry → ℕ → Bytes → BlockCacheEntry
  extend c bce num payload = record {
    last = num;
    expires = deadline c;
    rsp = record bce.rsp { payload = bce.rsp.payload ++ payload };
  }

  -- `blockCacheAppend`, behind its lookup.
  unfoldable pub append_entry :
      Clock → BlockCache → Bytes → Message → BlockMetadata → BlockCacheEntry → Result BlockCache
  append_entry c cache key req bmeta bce =
      if bmeta.num == bce.last + 1
      then ok (store key (extend c bce bmeta.num req.payload) cache)
      else err block_number_mismatch

  unfoldable pub block_cache_append :
      Clock → BlockCache → Message → BlockMetadata → Result BlockCache
  block_cache_append c cache req bmeta = do
    key ← or_panic (get_block_key to_string_array req)
    bce ← or_not_found (load key cache)
    append_entry c cache key req bmeta bce

  unfoldable pub block_cache_get :
      Clock → BlockCache → Message → ℤ → ℕ → Result (BlockCache × Message)
  block_cache_get c cache req num sz = do
    key ← or_panic (get_block_key to_string_array req)
    bce ← or_not_found (load key cache)
    get_entry c cache key req num sz bce

-- One round of `expireBlocks`: the entries whose time has passed are deleted.
unfoldable pub expire_blocks : ℕ → BlockCache → BlockCache
expire_blocks now [] = []
expire_blocks now ((k, bce) ∷ cache) =
    let rest = expire_blocks now cache in if ltb bce.expires now then rest else (k, bce) ∷ rest

-- `BlockCacheSize` asserts that each value is a `*Message`. The values are `*blockCacheEntry`s, so
-- the assertion panics at the first.
unfoldable pub block_cache_size : BlockCache → Result (ℕ × ℕ)
block_cache_size [] = ok (0, 0)
block_cache_size (_ ∷ _) = panic
