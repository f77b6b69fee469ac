-- ===== src/Cache/Responses.antt =====
-- blockCacheGet of blockwise.go: a client that asks for one block after the other.
use coap.Base.{
  ℕ, zero, suc, ◌+◌, ◌-◌, ◌*◌, ◌≤◌, ◌≡◌, refl, sym, ap, ap₂, ◌∙◌, take-append-take, false, List, [],
  ◌++◌, some, ltb, if◌then◌else◌, Bool-cases, inl, inr, length, take, drop, Result, ok, ◌>>=◌,
  arith, take-append-drop, drop-drop, drop_all, take_all, length-drop, append-nil,
}
use coap.Base.Int.{pos}
use coap.Base.Maps.{load, store, string_key, load-store_self}
use coap.Options.{Bytes, Value}
use coap.Message.{Message, with_size2, with_option, remove_option}
use coap.Block.{with_block, with_block1, with_block2}
use coap.Cache.{
  get_block_key, BlockCacheEntry, BlockCache, Clock, cut_block, get_entry, block_cache_get, touch,
}

-- The payload that block `num` of a whole has.
abbrev pub block_payload : Bytes → ℕ → ℕ → Bytes
block_payload whole num sz =
    take (if ltb (num * sz + sz) (length whole) then sz else length whole - num * sz)
      (drop (num * sz) whole)

-- A block that is cut shorter at the end is what there is to take.
pub block_payload-take :
    (whole : Bytes) (num sz : ℕ) → block_payload whole num sz ≡ take sz (drop (num * sz) whole)
block_payload-take whole num sz = elim (Bool-cases (ltb (num * sz + sz) (length whole))) [
  | inl e ↦ rw e refl
  | inr e ↦ rw e (
      take_all (length whole - num * sz) (drop (num * sz) whole)
        (omega (arith, length-drop (num * sz) whole))
      ∙ sym (take_all sz (drop (num * sz) whole) (ground (arith, length-drop (num * sz) whole))))
]

-- What is there goes on with the next block.
pub block_payload-taken :
    (whole buf payload : Bytes) (num sz : ℕ)
    → buf ≡ take (num * sz) whole
    → payload ≡ block_payload whole num sz
    → buf ++ payload ≡ take (suc num * sz) whole
block_payload-taken whole buf payload num sz eb ep =
    ap₂ (λ x y. x ++ y) eb (ep ∙ block_payload-take whole num sz)
    ∙ take-append-take (num * sz) sz whole
    ∙ ap (λ k. take k whole) (omega arith)

pub payload-cut_block :
    (req rsp : Message) (num sz : ℕ)
    → (cut_block req rsp num sz).payload ≡ block_payload rsp.payload num sz
unfolding cut_block with_size2 with_block1 with_block2 with_block with_option remove_option
payload-cut_block req rsp num sz = ground arith

-- A block and what follows it are what is left of the whole.
pub block_payload-append :
    (whole : Bytes) (num sz : ℕ)
    → num * sz ≤ length whole
    → block_payload whole num sz ++ drop (suc num * sz) whole ≡ drop (num * sz) whole
block_payload-append whole num sz h =
    let next : suc num * sz ≡ num * sz + sz = omega arith in
    rw next (elim (Bool-cases (ltb (num * sz + sz) (length whole))) [
      | inl e ↦
          rw (e, ← drop-drop (num * sz) sz whole) (take-append-drop sz (drop (num * sz) whole))
      | inr e ↦
          rw
            (
              e,
              drop_all (num * sz + sz) whole (ground arith),
              take_all (length whole - num * sz) (drop (num * sz) whole)
                  (omega (arith, length-drop (num * sz) whole)),
            )
            (append-nil (drop (num * sz) whole))
    ])

-- A client's requests for `k` blocks from block `num` on, and the payloads that it collects.
module _ (to_string_array : List Value → List Bytes) (c : Clock) (req : Message) (sz : ℕ) where
  unfoldable pub fetch_blocks : ℕ → ℕ → BlockCache → Result (BlockCache × Bytes)
  fetch_blocks zero num cache = ok (cache, [])
  fetch_blocks (suc k) num cache = do
    (cache, m) ← block_cache_get to_string_array c cache req (pos num) sz
    (cache, rest) ← fetch_blocks k (suc num) cache
    ok (cache, m.payload ++ rest)

  pub block_cache_get-hit :
      (cache : BlockCache) (key : Bytes) (bce : BlockCacheEntry) (num : ℕ)
      → get_block_key to_string_array req ≡ some key
      → load key cache ≡ some bce
      → num * sz ≤ length bce.rsp.payload
      → block_cache_get to_string_array c cache req (pos num) sz
        ≡ ok (store key (touch c bce) cache, cut_block req bce.rsp num sz)
  unfolding block_cache_get get_entry
  block_cache_get-hit cache key bce num ek el h = rw ek (rw el (ground arith))

  pub fetch_blocks-from :
      (k num : ℕ) (cache : BlockCache) (key : Bytes) (bce : BlockCacheEntry)
      → get_block_key to_string_array req ≡ some key
      → load key cache ≡ some bce
      → num * sz + k * sz ≤ length bce.rsp.payload + sz
      → length bce.rsp.payload ≤ num * sz + k * sz
      → (cache' : BlockCache) × (fetch_blocks k num cache
          ≡ ok (cache', drop (num * sz) bce.rsp.payload))
  unfolding fetch_blocks
  fetch_blocks-from zero num cache key bce ek el hi lo =
      (cache, rw (drop_all (num * sz) bce.rsp.payload (omega arith)))
  fetch_blocks-from (suc k) num cache key bce ek el hi lo =
      let cache1 = store key (touch c bce) cache in
      let here : num * sz ≤ length bce.rsp.payload = omega arith in
      let (cache2, rest) =
        fetch_blocks-from k (suc num) cache1 key (touch c bce) ek
          (load-store_self key (touch c bce) cache) (omega arith) (omega arith) in
      (
        cache2,
        rw (block_cache_get-hit cache key bce num ek el here, rest)
            (ap (λ (p : Bytes). ok (cache2, p))
              (rw (payload-cut_block req bce.rsp num sz)
                (block_payload-append bce.rsp.payload num sz here))),
      )

  -- A client that asks for the blocks 0, 1, … up to the one that is marked as the last collects the
  -- whole payload of the cached response, for every block size and length.
  pub fetch_blocks_complete :
      (k : ℕ) (cache : BlockCache) (key : Bytes) (bce : BlockCacheEntry)
      → get_block_key to_string_array req ≡ some key
      → load key cache ≡ some bce
      → k * sz ≤ length bce.rsp.payload
      → ltb (k * sz + sz) (length bce.rsp.payload) ≡ false
      → (cache' : BlockCache) × (fetch_blocks (suc k) 0 cache ≡ ok (cache', bce.rsp.payload))
  fetch_blocks_complete k cache key bce ek el hi last =
      let whole = bce.rsp.payload in
      let (cache', e) =
        fetch_blocks-from (suc k) 0 cache key bce ek el (omega arith) (ground arith) in
      let start : 0 * sz ≡ 0 = omega arith in
      (cache', e ∙ ap (λ (n : ℕ). ok (cache', drop n whole)) start)
