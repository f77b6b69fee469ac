-- ===== src/Client/Stage.antt =====
-- send.go against handler.go and transfer.go: the server keeps the blocks of an upload in its cache.
use coap.Base.{
  ℕ, suc, ◌^◌, ◌<◌, ◌≡◌, ◌≢◌, refl, sym, ap, ap₂, ◌∙◌, Bool, true, ◌++◌, List, [], some, ok, arith,
}
use coap.Base.Maps.{load, store, string_key, load-store_self}
use coap.Options.{Bytes, Value, opt_uri_path, opt_uri_query, opt_block2}
use coap.Message.{
  Message, options, path_string, path, option_strings, assert_strings, is_request, make_reply,
}
use coap.Block.{BlockMetadata, block_init, get_block1, with_block1}
use coap.Block.Codec.{IsBlockSize, on_wire, on_wire_exact}
use coap.Block.Travel.{reads, get_block-with_block}
use coap.Cache.{BlockCacheEntry, deadline, extend}
use coap.Route.{Routes}
use coap.Dispatch.{Callbacks, Tables}
use coap.Transfer.{Config, replied, collect_block1}
use coap.Transfer.Upload.{IsPart, continue_reply, collect_block1-first, collect_block1-next}
use coap.Client.{part}
use coap.Observe.{Sender}
use coap.Client.Peer.{IsTaken}
use coap.Client.Server.{
  arrive, serve, serve-replied, options-part, IsAddressed, resource_key, get_block_key-arrive,
  get_block1-opts, get_block1-arrive, payload-arrive, code-with_block1, type-part, code-part,
}

module _ {C O : Type 0} (to_string_array : List Value → List Bytes) (callbacks : Callbacks C O)
    (cfg : Config) (addr : Bytes) (sz code : ℕ) (paths queries : List Value) (parts : List Bytes)
    (strings : assert_strings paths ≡ some parts) (routes : Routes C) (is_code : code ≢ 0)
    (request_code : code < 10) (format : IsBlockSize sz) where
  abbrev pub key : Bytes
  key = resource_key to_string_array callbacks cfg addr code paths queries parts strings

  abbrev pub peer : Sender (Tables C O)
  peer = serve to_string_array callbacks cfg addr

  abbrev pub IsFor : Message → Type 0
  IsFor m =
      IsAddressed to_string_array callbacks cfg addr code paths queries parts strings m
      × (options m opt_block2 ≡ [])

  -- The cache holds `b` for the resource, up to the block `n`.
  abbrev pub Has : Tables C O → ℕ → Bytes → Type 0
  Has t n b =
      (bce : BlockCacheEntry) × (load key t.block_cache ≡ some bce)
      × (bce.last ≡ n)
      × (bce.rsp.payload ≡ b)
      × (t.routes ≡ routes)

  pub IsFor-part :
      (m : Message) (whole chunk : Bytes) (more : Bool) (num : ℕ)
      → IsFor m
      → IsFor (part m whole chunk more sz num)
  IsFor-part m whole chunk more num ((et, ec, ep, eq), e2) = (
    (
      type-part m whole chunk more sz num ∙ et,
      code-part m whole chunk more sz num ∙ ec,
      options-part opt_uri_path m whole chunk more sz num (omega arith) (omega arith) ∙ ep,
      options-part opt_uri_query m whole chunk more sz num (omega arith) (omega arith) ∙ eq,
    ),
    options-part opt_block2 m whole chunk more sz num (omega arith) (omega arith) ∙ e2,
  )

  pub IsPart-arrive :
      (m : Message) (bm : BlockMetadata)
      → IsFor m
      → get_block1 m ≡ some bm
      → IsPart to_string_array callbacks cfg sz key bm (arrive to_string_array callbacks cfg addr m)
  unfolding arrive is_request
  IsPart-arrive m bm ((et, ec, ep, eq), e2) eb = (
    ground arith,
    get_block1-arrive to_string_array callbacks cfg addr m ∙ eb,
    get_block_key-arrive to_string_array callbacks cfg addr code paths queries parts strings m
        (et, ec, ep, eq),
  )

  -- A part that the stage keeps is taken, as the loop of the client wants it.
  taken_by_stage :
      (t t' : Tables C O) (m : Message) (bm : BlockMetadata) (Holds : Tables C O → Type 0)
      → IsFor m
      → get_block1 m ≡ some bm
      → on_wire bm ≡ bm
      → let m' = arrive to_string_array callbacks cfg addr m in
        collect_block1 to_string_array callbacks cfg t m' (get_block1 m')
          ≡ ok (replied t' (continue_reply m'))
        → Holds t'
        → IsTaken peer sz IsFor Holds t m
  unfolding make_reply
  taken_by_stage t t' m bm Holds hf eb exact e h =
      let m' = arrive to_string_array callbacks cfg addr m in
      let reply = with_block1 (make_reply m' 95 []) (get_block1 m') in
      let (rsp, es, ec, ep, eo) = serve-replied to_string_array callbacks cfg addr t t' m reply e in
      let eb' : get_block1 m' ≡ some bm =
        get_block1-arrive to_string_array callbacks cfg addr m ∙ eb in
      let wire : get_block1 reply ≡ some bm =
        (get_block-with_block (make_reply m' 95 []) (get_block1 m')).0
        ∙ ap reads eb'
        ∙ ap some exact in
      (
        t',
        m,
        rsp,
        es,
        ec ∙ code-with_block1 (make_reply m' 95 []) (get_block1 m'),
        get_block1-opts rsp reply eo ∙ wire ∙ sym eb,
        hf,
        h,
      )

  exact_num :
      (num : ℕ) (more : Bool)
      → num < 2 ^ 20
      → on_wire (block_init num more sz) ≡ block_init num more sz
  unfolding block_init
  exact_num num more h = on_wire_exact (record { size = sz; num = num; more = more }) format h

  abbrev pub Ready : Tables C O → Type 0
  Ready t = t.routes ≡ routes

  abbrev pub at_server : Message → Message
  at_server = arrive to_string_array callbacks cfg addr

  pub take_first :
      (t : Tables C O) (m : Message)
      → Ready t
      → IsFor m
      → get_block1 m ≡ some (block_init 0 true sz)
      → IsTaken peer sz IsFor (λ t'. Has t' 0 m.payload) t m
  unfolding block_init
  take_first t m hr hf eb =
      let m' = at_server m in
      let bce : BlockCacheEntry = record { rsp = m'; last = 0; expires = deadline cfg.clock } in
      let t' = record t { block_cache = store key bce t.block_cache } in
      taken_by_stage t t' m (block_init 0 true sz) (λ t'. Has t' 0 m.payload) hf eb
        (exact_num 0 true (omega arith))
        (collect_block1-first to_string_array callbacks cfg sz key t m'
          (IsPart-arrive m (block_init 0 true sz) hf eb))
        (
          bce,
          load-store_self key bce t.block_cache,
          refl,
          payload-arrive to_string_array callbacks cfg addr m,
          hr,
        )

  pub take_next :
      (t : Tables C O) (m : Message) (n : ℕ) (b : Bytes)
      → suc n < 2 ^ 20
      → Has t n b
      → IsFor m
      → get_block1 m ≡ some (block_init (suc n) true sz)
      → IsTaken peer sz IsFor (λ t'. Has t' (suc n) (b ++ m.payload)) t m
  unfolding block_init
  take_next t m n b hn (bce, el, en, ep, hr) hf eb =
      let m' = at_server m in
      let bce' = extend to_string_array cfg.clock bce (suc n) m'.payload in
      let t' = record t { block_cache = store key bce' t.block_cache } in
      taken_by_stage t t' m (block_init (suc n) true sz) (λ t'. Has t' (suc n) (b ++ m.payload)) hf
        eb (exact_num (suc n) true hn)
        (collect_block1-next to_string_array callbacks cfg sz key t m' bce (suc n)
          (IsPart-arrive m (block_init (suc n) true sz) hf eb) el (omega (arith, en)))
        (
          bce',
          load-store_self key bce' t.block_cache,
          refl,
          ap₂ (λ x y. x ++ y) ep (payload-arrive to_string_array callbacks cfg addr m),
          hr,
        )

  pub options-at_server :
      (m : Message) (payload : Bytes)
      → options (record (at_server m) { payload = payload }) opt_block2 ≡ options m opt_block2
  unfolding arrive options
  options-at_server m payload = refl

  pub path_string-at_server :
      (m : Message) (payload : Bytes)
      → path_string (record (at_server m) { payload = payload }) ≡ path_string (at_server m)
  unfolding path_string path option_strings options
  path_string-at_server m payload = refl
