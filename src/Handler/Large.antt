-- ===== src/Handler/Large.antt =====
-- handler.go: the first block of a large answer, and the further blocks of one that is stored.
use coap.Observe.{Links}
use coap.Base.{
  ℕ, ◌+◌, ◌-◌, ◌*◌, ◌^◌, take, drop, ◌≤◌, ◌<◌, ◌≡◌, ◌≢◌, refl, ap, ◌∙◌, Bool, true, false, List,
  ◌∷◌, Option, none, some, ◌==◌, ltb, length, ok, arith, Bool-cases, inl, inr, if◌then◌else◌,
}
use coap.Base.Int.{pos}
use coap.Base.Maps.{load, store, string_key, load-store_self}
use coap.Options.{Bytes, Value}
use coap.Message.{Message, no_meta, option, path_string, is_request, with_size2}
use coap.Block.{
  BlockMetadata, block_init, get_block, get_block1, get_block2, with_block1, with_block2,
}
use coap.Block.Codec.{IsBlockSize, on_wire_exact}
use coap.Block.Travel.{get_block-with_block}
use coap.Cache.{
  BlockCacheEntry, get_block_key, block_cache_store, block_cache_put, cut_block, touch, deadline,
}
use coap.Cache.Responses.{block_cache_get-hit}
use coap.Route.{match_routes}
use coap.Dispatch.{Callbacks, Tables}
use coap.Transfer.{
  Config, requires_blockwise, collect_block1, serve_block2, split_reply, reply_block_size,
}
use coap.Transfer.Reply.{requires_blockwise-large}
use coap.Handler.{handle_new, stamp}
use coap.Handler.Answer.{dispatch-route}

get_block2-reply :
    (req m : Message)
    → get_block2 (record m { meta = no_meta; token = req.token; message_id = req.message_id })
      ≡ get_block2 m
unfolding get_block2 get_block option
get_block2-reply req m = refl

-- A block of a stored response tells its number, whether more follow, and its size.
pub get_block2-cut_block :
    (req rsp : Message) (num sz : ℕ)
    → IsBlockSize sz
    → num < 2 ^ 20
    → get_block2 (cut_block req rsp num sz)
      ≡ some (block_init num (ltb (num * sz + sz) (length rsp.payload)) sz)
unfolding cut_block block_init
get_block2-cut_block req rsp num sz format hn =
    let whole = rsp.payload in
    let more = ltb (num * sz + sz) (length whole) in
    let chunk = take (if more then sz else length whole - num * sz) (drop (num * sz) whole) in
    let cut = record rsp { payload = chunk } in
    let sized = if num == 0 then with_size2 cut (pos (length whole)) else cut in
    let bm : BlockMetadata = record { size = sz; num = num; more = more } in
    let told = with_block2 sized (some bm) in
    let e : get_block2 told ≡ some bm =
      (get_block-with_block sized (some bm)).1 ∙ ap some (on_wire_exact bm format hn) in
    elim (Bool-cases (ltb 0 num)) [
      | inl z ↦
          rw z
            (get_block2-reply req (with_block1 told none) ∙ (get_block-with_block told none).2 ∙ e)
      | inr z ↦ rw z (get_block2-reply req told ∙ e)
    ]

module _ {C O : Type 0} (to_string_array : List Value → List Bytes) (callbacks : Callbacks C O)
    (cfg : Config) where
  split_reply-first :
      (t : Tables C O) (req rsp : Message) (sz c : ℕ) (key : Bytes)
      → rsp.meta.max_message_size ≡ 0
      → rsp.meta.block_size ≡ sz
      → 0 < sz
      → sz < length rsp.payload
      → get_block_key to_string_array req ≡ some (c ∷ key)
      → let bce : BlockCacheEntry = record { rsp = rsp; last = 0; expires = deadline cfg.clock } in
        let cache = store (c ∷ key) bce t.block_cache in
        split_reply to_string_array callbacks cfg t req none none (some rsp)
        ≡ ok (
          record t { block_cache = store (c ∷ key) (touch cfg.clock bce) cache },
          some (cut_block req rsp 0 sz),
        )
  unfolding split_reply block_cache_put block_cache_store
  split_reply-first t req rsp sz c key hm es h0 lo ek =
      let bce : BlockCacheEntry = record { rsp = rsp; last = 0; expires = deadline cfg.clock } in
      let cache = store (c ∷ key) bce t.block_cache in
      let large : requires_blockwise rsp ≡ ok (rsp, true) =
        requires_blockwise-large to_string_array callbacks cfg rsp hm (omega (arith, es))
          (omega (arith, es)) in
      let own : reply_block_size to_string_array callbacks cfg req rsp ≡ sz = ground arith in
      let got =
        block_cache_get-hit to_string_array cfg.clock req sz cache (c ∷ key) bce 0 ek
          (load-store_self (c ∷ key) bce t.block_cache) (omega arith) in
      rw large (rw ek (rw own (rw got refl)))

  -- A request without block options for a route whose callback answers with more than a block.
  pub handle_new-large :
      (links : Links (Tables C O)) (t : Tables C O) (req rsp : Message) (sz c : ℕ)
      (key text : Bytes) (cb : C) (vars : Option (List (Bytes × Bytes)))
      → get_block1 req ≡ none
      → get_block2 req ≡ none
      → req.type ≡ 0
      → req.code ≢ 0
      → req.code < 10
      → path_string req ≡ some text
      → match_routes text t.routes req.path_vars ≡ (some cb, vars)
      → callbacks.call cb (record req { path_vars = vars }) ≡ some rsp
      → rsp.meta.max_message_size ≡ 0
      → rsp.meta.block_size ≡ sz
      → 0 < sz
      → sz < length rsp.payload
      → get_block_key to_string_array req ≡ some (c ∷ key)
      → let bce : BlockCacheEntry = record { rsp = rsp; last = 0; expires = deadline cfg.clock } in
        let cache = store (c ∷ key) bce t.block_cache in
        handle_new to_string_array callbacks cfg links t req
        ≡ ok (
          record t { block_cache = store (c ∷ key) (touch cfg.clock bce) cache },
          stamp cfg req (some (cut_block req rsp 0 sz)),
        )
  unfolding handle_new collect_block1 serve_block2
  handle_new-large links t req rsp sz c key text cb vars e1 e2 et c0 c10 ep em er hm es h0 lo ek =
      let na : (req.type == 2) ≡ false = ground arith in
      let d = dispatch-route to_string_array callbacks cfg t req text cb vars et c0 c10 ep em in
      rw (e1, handle_new)
        (rw na (rw e2 (rw (d, er) (rw (split_reply-first t req rsp sz c key hm es h0 lo ek) refl))))

  -- A request for a block of a response that is stored under its key.
  pub handle_new-block :
      (links : Links (Tables C O)) (t : Tables C O) (req : Message) (num sz : ℕ) (more : Bool)
      (key : Bytes) (bce : BlockCacheEntry)
      → get_block1 req ≡ none
      → get_block2 req ≡ some (block_init num more sz)
      → req.type ≡ 0
      → is_request req ≡ true
      → get_block_key to_string_array req ≡ some key
      → load key t.block_cache ≡ some bce
      → num * sz ≤ length bce.rsp.payload
      → handle_new to_string_array callbacks cfg links t req
        ≡ ok (
          record t { block_cache = store key (touch cfg.clock bce) t.block_cache },
          stamp cfg req (some (cut_block req bce.rsp num sz)),
        )
  unfolding handle_new collect_block1 serve_block2 block_init
  handle_new-block links t req num sz more key bce e1 e2 et hr ek el h =
      let na : (req.type == 2) ≡ false = ground arith in
      rw (e1, handle_new)
        (rw na (
          rw (e2, serve_block2)
            (rw hr (
              rw
                (block_cache_get-hit to_string_array cfg.clock req sz t.block_cache key bce num ek
                  el h)
                refl))))
