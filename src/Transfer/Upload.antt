-- ===== src/Transfer/Upload.antt =====
-- handler.go: an upload in parts, through the stage of handleMessage that collects them.
use coap.Base.{
  ℕ, ◌+◌, ◌≡◌, ◌≢◌, refl, sym, ◌∙◌, true, false, List, [], ◌∷◌, ◌++◌, map, Option, none, some, ◌==◌,
  Result, ok, stuck, ◌>>=◌, arith, append-nil, append_assoc,
}
use coap.Base.Maps.{load, store, string_key, load-store_self}
use coap.Options.{Bytes, Value}
use coap.Message.{Message, make_reply, is_request}
use coap.Block.{BlockMetadata, block_init, get_block1, with_block1}
use coap.Cache.{
  BlockCacheEntry, get_block_key, block_cache_store, block_cache_put, block_cache_get, get_entry,
  join_blocks, touch, deadline, extend,
}
use coap.Cache.Requests.{append-hit}
use coap.Dispatch.{Callbacks, Tables}
use coap.Transfer.{Config, Stage, replied, proceed, collect_block1}

-- The payloads of the parts in their order.
abbrev pub whole_payload : List Message → Bytes
whole_payload [] = []
whole_payload (m ∷ ms) = m.payload ++ whole_payload ms

-- The reply that asks for the next part: 2.31 with the part's own block option.
abbrev pub continue_reply : Message → Option Message
continue_reply m = some (with_block1 (make_reply m 95 []) (get_block1 m))

module _ {C O : Type 0} (to_string_array : List Value → List Bytes) (callbacks : Callbacks C O)
    (cfg : Config) (sz : ℕ) (key : Bytes) where
  -- A request for the resource of the key, that carries this block.
  abbrev pub IsPart : BlockMetadata → Message → Type 0
  IsPart block1 m =
      (is_request m ≡ true)
      × (get_block1 m ≡ some block1)
      × (get_block_key to_string_array m ≡ some key)

  -- The blocks are numbered from `n` on, and each says that more follow.
  abbrev pub AreParts : ℕ → List Message → Type 0
  AreParts n [] = Unit {0}
  AreParts n (m ∷ ms) = IsPart (record { size = sz; more = true; num = n }) m × AreParts (n + 1) ms

  -- The stage on one request after the other: the replies, where each ends with one.
  abbrev and_then :
      Stage C O
      → (Tables C O → Result (Tables C O × List (Option Message)))
      → Result (Tables C O × List (Option Message))
  and_then (replied t rsp) rest = rest t >>= λ (t', rsps). ok (t', rsp ∷ rsps)
  and_then (proceed t req rsp) rest = stuck

  unfoldable pub collect_all :
      Tables C O → List Message → Result (Tables C O × List (Option Message))
  collect_all t [] = ok (t, [])
  collect_all t (m ∷ ms) =
      collect_block1 to_string_array callbacks cfg t m (get_block1 m) >>= λ stage.
      and_then stage λ t'. collect_all t' ms

  pub collect_block1-first :
      (t : Tables C O) (m : Message)
      → IsPart (record { size = sz; more = true; num = 0 }) m
      → let bce : BlockCacheEntry = record { rsp = m; last = 0; expires = deadline cfg.clock } in
        collect_block1 to_string_array callbacks cfg t m (get_block1 m)
        ≡ ok (replied (record t { block_cache = store key bce t.block_cache }) (continue_reply m))
  unfolding collect_block1 block_cache_put block_cache_store
  collect_block1-first t m (er, eb, ek) = rw (eb, er, ek) refl

  pub collect_block1-next :
      (t : Tables C O) (m : Message) (bce : BlockCacheEntry) (n : ℕ)
      → IsPart (record { size = sz; more = true; num = n }) m
      → load key t.block_cache ≡ some bce
      → n ≡ bce.last + 1
      → let bce' = extend to_string_array cfg.clock bce n m.payload in
        collect_block1 to_string_array callbacks cfg t m (get_block1 m)
        ≡ ok (replied (record t { block_cache = store key bce' t.block_cache }) (continue_reply m))
  unfolding collect_block1 block_init
  collect_block1-next t m bce n (er, eb, ek) el en =
      let e = append-hit to_string_array sz cfg.clock t.block_cache m key bce n ek el en in
      let nz : (n == 0) ≡ false = ground arith in rw (eb, er, nz, e) refl

  collect_all-load :
      (ms : List Message) (n : ℕ) (t : Tables C O) (bce : BlockCacheEntry)
      → AreParts n ms
      → load key t.block_cache ≡ some bce
      → n ≡ bce.last + 1
      → (t' : Tables C O) × (bce' : BlockCacheEntry) × (collect_all t ms
          ≡ ok (t', map continue_reply ms))
        × (load key t'.block_cache ≡ some bce')
        × (bce'.rsp.payload ≡ bce.rsp.payload ++ whole_payload ms)
  unfolding collect_all
  collect_all-load [] n t bce hp el en = (t, bce, refl, el, sym (append-nil bce.rsp.payload))
  collect_all-load (m ∷ ms) n t bce (h, hp) el en =
      let bce1 = extend to_string_array cfg.clock bce n m.payload in
      let t1 = record t { block_cache = store key bce1 t.block_cache } in
      let (t', bce', e, l, p) =
        collect_all-load ms (n + 1) t1 bce1 hp (load-store_self key bce1 t.block_cache) refl in
      (
        t',
        bce',
        rw (collect_block1-next t m bce n h el en) (rw e refl),
        l,
        p ∙ append_assoc bce.rsp.payload m.payload (whole_payload ms),
      )

  pub collect_block1-last :
      (t : Tables C O) (m : Message) (bce : BlockCacheEntry) (n : ℕ)
      → n ≢ 0
      → IsPart (record { size = sz; more = false; num = n }) m
      → load key t.block_cache ≡ some bce
      → collect_block1 to_string_array callbacks cfg t m (get_block1 m)
        ≡ ok (
            proceed
              (record t { block_cache = store key (touch cfg.clock bce) t.block_cache })
              (record m { payload = bce.rsp.payload ++ m.payload })
              none)
  unfolding collect_block1 block_cache_get get_entry join_blocks
  collect_block1-last t m bce n ne (er, eb, ek) el =
      let nz : (n == 0) ≡ false = ground arith in rw (eb, er, nz, ek, el) refl

  -- An upload of at least two parts under one key, in order: each part but the last is answered with
  -- 2.31 and its own block option, and the last goes on to the dispatch as it is, but with the
  -- payloads of all parts in their order, whatever the cache held before. The number of the last
  -- part plays no role, except that it is not 0.
  pub collect_all-whole :
      (t : Tables C O) (first : Message) (parts : List Message) (last : Message) (n : ℕ)
      → AreParts 0 (first ∷ parts)
      → n ≢ 0
      → IsPart (record { size = sz; more = false; num = n }) last
      → (t' t'' : Tables C O) × (collect_all t (first ∷ parts)
          ≡ ok (t', map continue_reply (first ∷ parts)))
        × (collect_block1 to_string_array callbacks cfg t' last (get_block1 last)
            ≡ ok (
                proceed t''
                  (record last { payload = whole_payload (first ∷ parts) ++ last.payload })
                  none))
  unfolding collect_all
  collect_all-whole t first parts last n (h, hp) ne hl =
      let bce : BlockCacheEntry = record { rsp = first; last = 0; expires = deadline cfg.clock } in
      let t1 = record t { block_cache = store key bce t.block_cache } in
      let (t', bce', e, l, p) =
        collect_all-load parts 1 t1 bce hp (load-store_self key bce t.block_cache) refl in
      (
        t',
        record t' { block_cache = store key (touch cfg.clock bce') t'.block_cache },
        rw (collect_block1-first t first h) (rw e refl),
        rw (← p) (collect_block1-last t' last bce' n ne hl l),
      )
