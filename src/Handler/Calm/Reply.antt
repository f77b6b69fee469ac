-- ===== src/Handler/Calm/Reply.antt =====
-- handler.go: panics where a reply is cut into blocks.
use coap.Base.{
  ℕ, Bool, true, false, List, Option, none, some, ltb, Result, ok, err, panic, stuck, NoPanic,
  >>=-NoPanic, if-NoPanic,
}
use coap.Base.Int.{ℤ}
use coap.Options.{Bytes, Value}
use coap.Message.{Message, make_reply}
use coap.Message.Sendable.{IsSendable, packet_size-NoPanic, with_block-IsSendable}
use coap.Message.Read.{IsRead}
use coap.Block.{BlockMetadata}
use coap.Wire.{packet_size}
use coap.Cache.{BlockCache, block_cache_put}
use coap.Cache.Sendable.{
  IsSendableCache, get_block_key-IsRead, block_cache_put-NoPanic, block_cache_get-NoPanic,
}
use coap.Dedup.Sendable.{IsSendableReply}
use coap.Dispatch.{Callbacks, Tables}
use coap.Transfer.{
  Config, requires_blockwise, with_some_block1, first_block, store_reply, split_reply,
}
use coap.Handler.Calm.{Keeps, IsCalmReply}

requires_blockwise-NoPanic :
    (m : Message)
    → IsSendable m
    → NoPanic (λ (r : Message × Bool). IsSendable r.0) (requires_blockwise m)
unfolding requires_blockwise
requires_blockwise-NoPanic m h =
    if-NoPanic (λ (r : Message × Bool). IsSendable r.0) (ltb 0 m.meta.max_message_size) _ _
      (>>=-NoPanic (λ (r : Message × ℕ). IsSendable r.0) (λ (r : Message × Bool). IsSendable r.0)
        (packet_size m) _ (packet_size-NoPanic m h) (λ r hr. hr))
      h

module _ {C O : Type 0} (to_string_array : List Value → List Bytes) (callbacks : Callbacks C O)
    (cfg : Config) where
  first_block-NoPanic :
      (t : Tables C O) (req : Message) (r : Result (BlockCache × Message))
      → Keeps t
      → NoPanic (λ (r : BlockCache × Message). IsSendableCache r.0 × IsSendable r.1) r
      → NoPanic IsCalmReply (first_block to_string_array callbacks cfg t req r)
  unfolding make_reply
  first_block-NoPanic t req (ok (cache, m)) h hm = hm
  first_block-NoPanic t req (err e) h hm = (h, tt)
  first_block-NoPanic t req panic h hm = absurd hm
  first_block-NoPanic t req stuck h hm = tt

  store_reply-NoPanic :
      (t : Tables C O) (req : Message) (num : ℤ) (size : ℕ) (rsp : Message) (large : Bool)
      → Keeps t
      → IsRead req
      → IsSendable rsp
      → NoPanic IsCalmReply (store_reply to_string_array callbacks cfg t req num size rsp large)
  store_reply-NoPanic t req num size rsp false h hr hs = (h, hs)
  store_reply-NoPanic t req num size rsp true h hr hs =
      let (key, e, lo) = get_block_key-IsRead to_string_array cfg.clock req hr in
      rw e (
        >>=-NoPanic IsSendableCache IsCalmReply
          (block_cache_put to_string_array cfg.clock t.block_cache rsp key) _
          (block_cache_put-NoPanic to_string_array cfg.clock t.block_cache rsp key h hs lo)
          (λ cache hc.
            first_block-NoPanic (record t { block_cache = cache }) req _ hc
              (block_cache_get-NoPanic to_string_array cfg.clock cache req num size hc hr)))

  with_some_block1-IsSendable :
      (rsp : Message) (block1 : Option BlockMetadata)
      → IsSendable rsp
      → IsSendable (with_some_block1 to_string_array callbacks cfg rsp block1)
  with_some_block1-IsSendable rsp none h = h
  with_some_block1-IsSendable rsp (some block1) h = (with_block-IsSendable rsp (some block1) h).0

  pub split_reply-NoPanic :
      (t : Tables C O) (req : Message) (block1 block2 : Option BlockMetadata) (rsp : Option Message)
      → Keeps t
      → IsRead req
      → IsSendableReply rsp
      → NoPanic IsCalmReply (split_reply to_string_array callbacks cfg t req block1 block2 rsp)
  unfolding split_reply
  split_reply-NoPanic t req block1 block2 none h hr hs = (h, tt)
  split_reply-NoPanic t req block1 block2 (some rsp) h hr hs =
      let told = with_some_block1 to_string_array callbacks cfg rsp block1 in
      >>=-NoPanic (λ (r : Message × Bool). IsSendable r.0) IsCalmReply (requires_blockwise told) _
        (requires_blockwise-NoPanic told (with_some_block1-IsSendable rsp block1 hs))
        (λ r hm. store_reply-NoPanic t req _ _ r.0 r.1 h hr hm)
