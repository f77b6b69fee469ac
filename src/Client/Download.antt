-- ===== src/Client/Download.antt =====
-- send.go against handler.go: a response that this server stores and sends in blocks.
use coap.Observe.{no_links}
use coap.Base.{
  ℕ, ◌*◌, ◌^◌, ◌≤◌, ◌<◌, ◌≡◌, ◌≢◌, refl, ap, ◌∙◌, Bool, true, false, ◌++◌, List, [], ◌∷◌, Option,
  none, some, length, ok, arith, ◌==◌, if◌then◌else◌,
}
use coap.Base.Maps.{load, store, string_key, load-store_self}
use coap.Options.{Bytes, Value, opt_uri_path, opt_uri_query, opt_block1, opt_block2}
use coap.Message.{
  Message, options, assert_strings, join, slash, is_request, remove_option, with_option,
}
use coap.Message.Values.{options-remove_option}
use coap.Block.{BlockMetadata, block_init, get_block2, with_block1, with_block2, with_block}
use coap.Block.Codec.{IsBlockSize}
use coap.Block.Travel.{get_block1-none, get_block2-none}
use coap.Cache.{BlockCacheEntry, deadline, touch, cut_block}
use coap.Cache.Responses.{payload-cut_block, block_payload}
use coap.Names.{code_name}
use coap.Route.{match_routes}
use coap.Dispatch.{Callbacks, Tables}
use coap.Transfer.{Config}
use coap.Handler.Large.{get_block2-cut_block, handle_new-large, handle_new-block}
use coap.Observe.{Sender}
use coap.Client.Fetch.{Provider, is_followed}
use coap.Client.Server.{
  arrive, serve, serve-answer, IsAddressed, resource_key, path_string-arrive, get_block_key-arrive,
  get_block1-arrive, get_block2-arrive, get_block2-opts, options-with_block2,
}

module _ {C O : Type 0} (to_string_array : List Value → List Bytes) (callbacks : Callbacks C O)
    (cfg : Config) (addr : Bytes) (sz code : ℕ) (paths queries : List Value) (parts : List Bytes)
    (strings : assert_strings paths ≡ some parts) (is_code : code ≢ 0) (request_code : code < 10)
    (format : IsBlockSize sz) where
  abbrev pub peer : Sender (Tables C O)
  peer = serve to_string_array callbacks cfg addr

  abbrev pub at_server : Message → Message
  at_server = arrive to_string_array callbacks cfg addr

  abbrev pub key : Bytes
  key = resource_key to_string_array callbacks cfg addr code paths queries parts strings

  -- A confirmable request for the resource that carries no part of an upload.
  abbrev pub IsFor : Message → Type 0
  IsFor m =
      IsAddressed to_string_array callbacks cfg addr code paths queries parts strings m
      × (options m opt_block1 ≡ [])

  -- The cache has a response with this payload for the resource.
  abbrev pub Serves : Bytes → Tables C O → Type 0
  Serves whole t =
      (bce : BlockCacheEntry) × (load key t.block_cache ≡ some bce) × (bce.rsp.payload ≡ whole)

  pub IsFor-with_block2 :
      (m : Message) (bm : BlockMetadata) → IsFor m → IsFor (with_block2 m (some bm))
  unfolding with_block2 with_block with_option
  IsFor-with_block2 m bm ((et, ec, ep, eq), e1) = (
    (
      et,
      ec,
      options-with_block2 opt_uri_path m bm (omega arith) ∙ ep,
      options-with_block2 opt_uri_query m bm (omega arith) ∙ eq,
    ),
    options-with_block2 opt_block1 m bm (omega arith) ∙ e1,
  )

  request-arrive : (m : Message) → IsFor m → is_request (at_server m) ≡ true
  unfolding is_request arrive
  request-arrive m ((et, ec, eu, eq), e1) = ground arith

  pub serve-block :
      (whole : Bytes) (t : Tables C O) (m : Message) (num : ℕ)
      → Serves whole t
      → IsFor m
      → get_block2 m ≡ some (block_init num false sz)
      → num * sz ≤ length whole
      → num < 2 ^ 20
      → (t' : Tables C O) × (m' : Message) × (rsp : Message) × (peer t m ≡ (t', m', ok (some rsp)))
        × (rsp.payload ≡ block_payload whole num sz)
        × (get_block2 rsp ≡ some (block_init num (is_followed peer sz whole num) sz))
        × IsFor m'
        × Serves whole t'
  unfolding arrive
  serve-block whole t m num (bce, el, ep) ((et, ec, eu, eq), e1) e2 h hn =
      let hf : IsFor m = ((et, ec, eu, eq), e1) in
      let req = at_server m in
      let t' = record t { block_cache = store key (touch cfg.clock bce) t.block_cache } in
      let rsp = cut_block req bce.rsp num sz in
      let sent = record rsp { meta = record req.meta { received_at = cfg.clock.now } } in
      let stored : num * sz ≤ length bce.rsp.payload = rw ep h in
      let handled =
        handle_new-block to_string_array callbacks cfg no_links t req num sz false key bce
          (get_block1-arrive to_string_array callbacks cfg addr m ∙ get_block1-none m e1)
          (get_block2-arrive to_string_array callbacks cfg addr m ∙ e2) et (request-arrive m hf)
          (get_block_key-arrive to_string_array callbacks cfg addr code paths queries parts strings
            m (et, ec, eu, eq))
          el stored in
      (
        t',
        m,
        sent,
        serve-answer to_string_array callbacks cfg addr t t' m sent handled,
        payload-cut_block req bce.rsp num sz ∙ ap (λ (w : Bytes). block_payload w num sz) ep,
        get_block2-opts sent rsp refl
            ∙ get_block2-cut_block req bce.rsp num sz format hn
            ∙ ap (λ (w : Bytes). some (block_init num (is_followed peer sz w num) sz)) ep,
        hf,
        (touch cfg.clock bce, load-store_self key (touch cfg.clock bce) t.block_cache, ep),
      )

  abbrev pub provider : (whole : Bytes) → Provider peer sz whole
  provider whole = record {
    IsFor = IsFor;
    Serves = Serves whole;
    numbered_is_for = IsFor-with_block2;
    block = serve-block whole;
  }

  -- What the client goes on with behind the first block.
  abbrev pub further : Message → Message
  further m = record (with_block1 m none) { payload = [] }

  options-further :
      (m : Message) (k : ℕ) → options (further m) k ≡ (if k == opt_block1 then [] else options m k)
  unfolding with_block1 with_block options
  options-further m k = options-remove_option m k opt_block1

  pub IsFor-further : (m : Message) → IsFor m → IsFor (further m)
  unfolding with_block1 with_block remove_option
  IsFor-further m ((et, ec, ep, eq), e1) = (
    (et, ec, options-further m opt_uri_path ∙ ep, options-further m opt_uri_query ∙ eq),
    options-further m opt_block1,
  )

  -- The first exchange of a request whose answer is large.
  pub serve-first :
      (t : Tables C O) (m answer : Message) (a : ℕ) (others : Bytes) (cb : C)
      (vars : Option (List (Bytes × Bytes)))
      → addr ≡ a ∷ others
      → IsFor m
      → options m opt_block2 ≡ []
      → match_routes (join slash parts) t.routes none ≡ (some cb, vars)
      → callbacks.call cb (record (at_server m) { path_vars = vars }) ≡ some answer
      → answer.meta.max_message_size ≡ 0
      → answer.meta.block_size ≡ sz
      → 0 < sz
      → sz < length answer.payload
      → (t' : Tables C O) × (rsp : Message) × (peer t m ≡ (t', m, ok (some rsp)))
        × (rsp.payload ≡ block_payload answer.payload 0 sz)
        × (get_block2 rsp ≡ some (block_init 0 true sz))
        × Serves answer.payload t'
  unfolding arrive
  serve-first t m answer a others cb vars ea ((et, ec, eu, eq), e1) e2 em er hm es h0 lo =
      let hf : IsFor m = ((et, ec, eu, eq), e1) in
      let req = at_server m in
      let tail = code_name code ++ (join slash parts ++ join b'&' (to_string_array queries)) in
      let ek : key ≡ a ∷ (others ++ tail) = ap (λ (x : Bytes). x ++ tail) ea in
      let bce : BlockCacheEntry = record { rsp = answer; last = 0; expires = deadline cfg.clock } in
      let cache = store (a ∷ (others ++ tail)) bce t.block_cache in
      let t' = record t {
        block_cache = store (a ∷ (others ++ tail)) (touch cfg.clock bce) cache;
      } in
      let rsp = cut_block req answer 0 sz in
      let sent = record rsp { meta = record req.meta { received_at = cfg.clock.now } } in
      let handled =
        handle_new-large to_string_array callbacks cfg no_links t req answer sz a (others ++ tail)
          (join slash parts) cb vars
          (get_block1-arrive to_string_array callbacks cfg addr m ∙ get_block1-none m e1)
          (get_block2-arrive to_string_array callbacks cfg addr m ∙ get_block2-none m e2) et
          (rw ec is_code) (rw ec request_code)
          (path_string-arrive to_string_array callbacks cfg addr code paths queries parts strings m
            (et, ec, eu, eq))
          em er hm es h0 lo
          (get_block_key-arrive to_string_array callbacks cfg addr code paths queries parts strings
              m (et, ec, eu, eq)
            ∙ ap some ek) in
      let more : is_followed peer sz answer.payload 0 ≡ true = ground arith in
      (
        t',
        sent,
        serve-answer to_string_array callbacks cfg addr t t' m sent handled,
        payload-cut_block req answer 0 sz,
        get_block2-opts sent rsp refl
            ∙ get_block2-cut_block req answer 0 sz format (omega arith)
            ∙ ap (λ (b : Bool). some (block_init 0 b sz)) more,
        (
          touch cfg.clock bce,
          ap (λ (k : Bytes). load k t'.block_cache) ek
              ∙ load-store_self (a ∷ (others ++ tail)) (touch cfg.clock bce) cache,
          refl,
        ),
      )
