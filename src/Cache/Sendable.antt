-- ===== src/Cache/Sendable.antt =====
-- blockwise.go: the block cache does not panic on a message that was read, and what comes out of it can
-- be written, if what is in it can.
use mathlib.Core.Path.{subst}
use coap.Base.{
  All, ℕ, ◌-◌, ◌*◌, ◌+◌, ◌≡◌, ◌≤◌, refl, sym, ◌∙◌, List, [], ◌∷◌, ◌++◌, none, some, Bool, true,
  false, ltb, ◌==◌, length, length-append, take, drop, NoPanic, if◌then◌else◌, arith, Bool-cases,
  Option-cases, inl, inr, bytes_eq,
}
use coap.Base.Int.{ℤ, pos, negsuc}
use coap.Base.Maps.{delete, load, store, string_key}
use coap.Options.{Bytes, Value}
use coap.Message.{Message, with_size2}
use coap.Message.Sendable.{IsSendable, with_block-IsSendable, with_size2-IsSendable}
use coap.Message.Read.{IsRead, All-IsParsed, path_string-IsRead}
use coap.Block.{BlockMetadata, block_init, with_block1, with_block2}
use coap.Names.{code_name}
use coap.Names.Declared.{length-code_name}
use coap.Cache.{
  expire_blocks, BlockCache, BlockCacheEntry, Clock, get_block_key, query_string, block_cache_store,
  block_cache_put, cut_block, join_blocks, get_entry, append_entry, block_cache_append,
  block_cache_get, touch, extend,
}

-- All that is stored can be written.
abbrev pub IsSendableCache : BlockCache → Type 0
IsSendableCache cache = All (λ (e : Bytes × BlockCacheEntry). IsSendable e.1.rsp) cache

delete-IsSendableCache :
    (cache : BlockCache) (key : Bytes) → IsSendableCache cache → IsSendableCache (delete key cache)
unfolding delete
delete-IsSendableCache [] key h = tt
delete-IsSendableCache ((k, bce) ∷ cache) key (hb, h) = elim (Bool-cases (bytes_eq k key)) [
  | inl z ↦ rw z (delete-IsSendableCache cache key h)
  | inr z ↦ rw z (hb, delete-IsSendableCache cache key h)
]

store-IsSendableCache :
    (cache : BlockCache) (key : Bytes) (bce : BlockCacheEntry)
    → IsSendableCache cache
    → IsSendable bce.rsp
    → IsSendableCache (store key bce cache)
unfolding store
store-IsSendableCache cache key bce h hb = (hb, delete-IsSendableCache cache key h)

load-IsSendableCache :
    (cache : BlockCache) (key : Bytes) (bce : BlockCacheEntry)
    → IsSendableCache cache
    → load key cache ≡ some bce
    → IsSendable bce.rsp
unfolding load
load-IsSendableCache [] key bce h e = cc
load-IsSendableCache ((k, found) ∷ cache) key bce (hb, h) e = elim (Bool-cases (bytes_eq k key)) [
  | inl z ↦
      let here : load key ((k, found) ∷ cache) ≡ some found = rw z refl in
      let same : found ≡ bce = cc in subst (λ (b : BlockCacheEntry). IsSendable b.rsp) same hb
  | inr z ↦
      let behind : load key ((k, found) ∷ cache) ≡ load key cache = rw z refl in
      load-IsSendableCache cache key bce h (sym behind ∙ e)
]

-- What has not expired can still be written.
pub expire_blocks-IsSendableCache :
    (now : ℕ) (cache : BlockCache)
    → IsSendableCache cache
    → IsSendableCache (expire_blocks now cache)
unfolding expire_blocks
expire_blocks-IsSendableCache now [] h = tt
expire_blocks-IsSendableCache now ((k, bce) ∷ cache) (hb, h) =
    elim (Bool-cases (ltb bce.expires now)) [
      | inl z ↦ rw z (expire_blocks-IsSendableCache now cache h)
      | inr z ↦ rw z (hb, expire_blocks-IsSendableCache now cache h)
    ]

either-IsSendable :
    (b : Bool) (x y : Message) → IsSendable x → IsSendable y → IsSendable (if b then x else y)
either-IsSendable true x y h k = h
either-IsSendable false x y h k = k

cut_block-IsSendable :
    (req rsp : Message) (num sz : ℕ) → IsSendable rsp → IsSendable (cut_block req rsp num sz)
unfolding cut_block
cut_block-IsSendable req rsp num sz h =
    let whole = rsp.payload in
    let more = ltb (num * sz + sz) (length whole) in
    let chunk = take (if more then sz else length whole - num * sz) (drop (num * sz) whole) in
    let cut = record rsp { payload = chunk } in
    let sized = if num == 0 then with_size2 cut (pos (length whole)) else cut in
    let bm = block_init num more sz in
    let told = with_block2 sized (some bm) in
    let sized_h : IsSendable sized =
      either-IsSendable (num == 0) (with_size2 cut (pos (length whole))) cut
        (with_size2-IsSendable cut (pos (length whole)) h) h in
    let told_h : IsSendable told = (with_block-IsSendable sized (some bm) sized_h).1 in
    either-IsSendable (ltb 0 num) (with_block1 told none) told
      (with_block-IsSendable told none told_h).0 told_h

module _ (to_string_array : List Value → List Bytes) (c : Clock) where
  -- The key of a message that was read exists, and is not empty.
  pub get_block_key-IsRead :
      (m : Message)
      → IsRead m
      → (key : Bytes) × (get_block_key to_string_array m ≡ some key) × (1 ≤ length key)
  unfolding get_block_key
  get_block_key-IsRead m h =
      let (p, e) = path_string-IsRead m h in
      let query = query_string to_string_array m in
      (
        m.meta.remote_addr ++ (code_name m.code ++ (p ++ query)),
        rw (e, get_block_key) refl,
        omega (
          arith,
          length-append m.meta.remote_addr (code_name m.code ++ (p ++ query)),
          length-append (code_name m.code) (p ++ query),
          length-code_name m.code,
        ),
      )

  pub block_cache_put-NoPanic :
      (cache : BlockCache) (req : Message) (key : Bytes)
      → IsSendableCache cache
      → IsSendable req
      → 1 ≤ length key
      → NoPanic IsSendableCache (block_cache_put to_string_array c cache req key)
  unfolding block_cache_put block_cache_store
  block_cache_put-NoPanic cache req [] h hr lo = absurd (omega arith)
  block_cache_put-NoPanic cache req (k ∷ key) h hr lo = store-IsSendableCache cache (k ∷ key) _ h hr

  pub block_cache_put-IsRead :
      (cache : BlockCache) (req : Message)
      → IsSendableCache cache
      → IsRead req
      → NoPanic IsSendableCache (block_cache_put to_string_array c cache req [])
  unfolding block_cache_put block_cache_store
  block_cache_put-IsRead cache req h hr =
      let (key, e, lo) = get_block_key-IsRead req hr in
      rw (e, block_cache_put) (store-IsSendableCache cache key _ h (All-IsParsed req.opts hr))

  append_entry-NoPanic :
      (cache : BlockCache) (key : Bytes) (req : Message) (bm : BlockMetadata)
      (bce : BlockCacheEntry)
      → IsSendableCache cache
      → IsSendable bce.rsp
      → NoPanic IsSendableCache (append_entry to_string_array c cache key req bm bce)
  unfolding append_entry
  append_entry-NoPanic cache key req bm bce h hb = elim (Bool-cases (bm.num == bce.last + 1)) [
    | inl z ↦
        rw z
          (store-IsSendableCache cache key (extend to_string_array c bce bm.num req.payload) h hb)
    | inr z ↦ rw z tt
  ]

  pub block_cache_append-NoPanic :
      (cache : BlockCache) (req : Message) (bm : BlockMetadata)
      → IsSendableCache cache
      → IsRead req
      → NoPanic IsSendableCache (block_cache_append to_string_array c cache req bm)
  unfolding block_cache_append
  block_cache_append-NoPanic cache req bm h hr =
      let (key, e, lo) = get_block_key-IsRead req hr in
      elim (Option-cases (load key cache)) [
        | inl el ↦ rw (e, block_cache_append) (rw el tt)
        | inr (bce, el) ↦
            rw (e, block_cache_append)
              (rw el (
                append_entry-NoPanic cache key req bm bce h
                  (load-IsSendableCache cache key bce h el)))
      ]

  get_entry-NoPanic :
      (cache : BlockCache) (key : Bytes) (req : Message) (num : ℤ) (sz : ℕ) (bce : BlockCacheEntry)
      → IsSendableCache cache
      → IsSendable bce.rsp
      → NoPanic
          (λ (r : BlockCache × Message). IsSendableCache r.0 × IsSendable r.1)
          (get_entry c cache key req num sz bce)
  unfolding get_entry join_blocks
  get_entry-NoPanic cache key req (pos num) sz bce h hb =
      elim (Bool-cases (ltb (length bce.rsp.payload) (num * sz))) [
        | inl z ↦ rw z tt
        | inr z ↦ rw z (
          store-IsSendableCache cache key (touch c bce) h hb,
          cut_block-IsSendable req bce.rsp num sz hb,
        )
      ]
  get_entry-NoPanic cache key req (negsuc n) sz bce h hb =
      (store-IsSendableCache cache key (touch c bce) h hb, hb)

  pub block_cache_get-NoPanic :
      (cache : BlockCache) (req : Message) (num : ℤ) (sz : ℕ)
      → IsSendableCache cache
      → IsRead req
      → NoPanic
          (λ (r : BlockCache × Message). IsSendableCache r.0 × IsSendable r.1)
          (block_cache_get to_string_array c cache req num sz)
  unfolding block_cache_get
  block_cache_get-NoPanic cache req num sz h hr =
      let (key, e, lo) = get_block_key-IsRead req hr in
      elim (Option-cases (load key cache)) [
        | inl el ↦ rw (e, block_cache_get) (rw el tt)
        | inr (bce, el) ↦
            rw (e, block_cache_get)
              (rw el (
                get_entry-NoPanic cache key req num sz bce h
                  (load-IsSendableCache cache key bce h el)))
      ]
