-- ===== src/Handler/Calm/Stages.antt =====
-- handler.go: panics in the stages for parts of payloads.
use coap.Base.{
  List, [], Option, none, some, ◌==◌, ◌&&◌, not, Result, ok, err, panic, stuck, NoPanic, if-NoPanic,
  Option-cases, inl, inr,
}
use coap.Base.Int.{pos, negsuc}
use coap.Base.Maps.{load}
use coap.Options.{Bytes, Value}
use coap.Message.{Message, make_reply, is_request, accept}
use coap.Message.Sendable.{IsSendable, with_block-IsSendable}
use coap.Message.Read.{IsRead, accept-IsRead}
use coap.Block.{BlockMetadata, get_block2}
use coap.Cache.{BlockCache}
use coap.Cache.Sendable.{
  IsSendableCache, block_cache_put-IsRead, block_cache_append-NoPanic, block_cache_get-NoPanic,
}
use coap.Dedup.Sendable.{IsSendableReply}
use coap.Observe.{Links, get_observe, retrieve}
use coap.Observe.Calm.{AreCalm, IsReturned, retrieve-IsCalm}
use coap.Dispatch.{Callbacks, Tables, block_retreive, retrieve_for, completed}
use coap.Transfer.{
  Config, Stage, replied, proceed, reassembled, appended, collect_block1, fetched, retrieved,
  first_ack, ack_sent, serve_block2,
}
use coap.Handler.Calm.{Keeps, IsCalmReply}

abbrev pub IsCalmStage : {C O : Type 0} → Stage C O → Type 0
IsCalmStage (replied t rsp) = IsCalmReply (t, rsp)
IsCalmStage (proceed t req rsp) = Keeps t × IsRead req × IsSendableReply rsp

module _ {C O : Type 0} (to_string_array : List Value → List Bytes) (callbacks : Callbacks C O)
    (cfg : Config) where
  reassembled-NoPanic :
      (t : Tables C O) (req : Message) (r : Result (BlockCache × Message))
      → Keeps t
      → IsRead req
      → NoPanic (λ (r : BlockCache × Message). IsSendableCache r.0 × IsSendable r.1) r
      → NoPanic IsCalmStage (reassembled to_string_array callbacks cfg t req r)
  unfolding make_reply
  reassembled-NoPanic t req (ok (cache, m)) h hr (hc, hm) = (hc, hr, tt)
  reassembled-NoPanic t req (err e) h hr hm = (h, tt)
  reassembled-NoPanic t req panic h hr hm = absurd hm
  reassembled-NoPanic t req stuck h hr hm = tt

  appended-NoPanic :
      (t : Tables C O) (req : Message) (block1 : BlockMetadata) (r : Result BlockCache)
      → Keeps t
      → NoPanic IsSendableCache r
      → NoPanic IsCalmStage (appended to_string_array callbacks cfg t req block1 r)
  unfolding make_reply
  appended-NoPanic t req block1 (ok cache) h hc =
      (hc, (with_block-IsSendable (make_reply req 95 []) (some block1) tt).0)
  appended-NoPanic t req block1 (err e) h hc = (h, tt)
  appended-NoPanic t req block1 panic h hc = absurd hc
  appended-NoPanic t req block1 stuck h hc = tt

  pub collect_block1-NoPanic :
      (t : Tables C O) (req : Message) (block1 : Option BlockMetadata)
      → Keeps t
      → IsRead req
      → NoPanic IsCalmStage (collect_block1 to_string_array callbacks cfg t req block1)
  unfolding collect_block1
  collect_block1-NoPanic t req none h hr = (h, hr, tt)
  collect_block1-NoPanic t req (some block1) h hr =
      let cache = t.block_cache in
      if-NoPanic IsCalmStage (not (is_request req)) _ _ (h, hr, tt)
        (if-NoPanic IsCalmStage ((block1.num == 0) && not block1.more) _ _ (h, hr, tt)
          (if-NoPanic IsCalmStage (block1.num == 0) _ _
            (appended-NoPanic t req block1 _ h
              (block_cache_put-IsRead to_string_array cfg.clock cache req h hr))
            (if-NoPanic IsCalmStage (not block1.more) _ _
              (reassembled-NoPanic t req _ h hr
                (block_cache_get-NoPanic to_string_array cfg.clock cache req (negsuc 0) 0 h hr))
              (appended-NoPanic t req block1 _ h
                (block_cache_append-NoPanic to_string_array cfg.clock cache req block1 h hr)))))

  fetched-NoPanic :
      (t : Tables C O) (req : Message) (r : Result (BlockCache × Message))
      → Keeps t
      → IsRead req
      → NoPanic (λ (r : BlockCache × Message). IsSendableCache r.0 × IsSendable r.1) r
      → NoPanic IsCalmStage (fetched to_string_array callbacks cfg t req r)
  fetched-NoPanic t req (ok (cache, m)) h hr hm = hm
  fetched-NoPanic t req (err e) h hr hm = (h, hr, tt)
  fetched-NoPanic t req panic h hr hm = absurd hm
  fetched-NoPanic t req stuck h hr hm = tt

  -- A retrieval keeps the tables, and gives a request with the options that were read.
  abbrev IsCalmRetrieval : Tables C O × Result Message → Type 0
  IsCalmRetrieval (t, r) = Keeps t × NoPanic IsRead r

  retrieved-NoPanic :
      (req : Message) (r : Tables C O × Result Message)
      → IsRead req
      → IsCalmRetrieval r
      → NoPanic IsCalmStage (retrieved to_string_array callbacks cfg req r)
  retrieved-NoPanic req (t, ok whole) hr (h, hw) = (h, hw, tt)
  retrieved-NoPanic req (t, err e) hr (h, hw) = (h, hr, tt)
  retrieved-NoPanic req (t, panic) hr (h, hw) = absurd hw
  retrieved-NoPanic req (t, stuck) hr (h, hw) = tt

  completed-IsCalm :
      (req : Message) (r : Tables C O × Result Bytes)
      → IsRead req
      → Keeps r.0
      → NoPanic (λ _. Unit {0}) r.1
      → IsCalmRetrieval (completed callbacks req r)
  completed-IsCalm req (t, ok payload) hr h hp = (h, hr)
  completed-IsCalm req (t, err e) hr h hp = (h, tt)
  completed-IsCalm req (t, panic) hr h hp = absurd hp
  completed-IsCalm req (t, stuck) hr h hp = (h, tt)

  module _ (links : Links (Tables C O)) (calm : AreCalm Keeps links) where
    retrieve_for-IsCalm :
        (t : Tables C O) (req : Message) (path : Bytes) (block2 : BlockMetadata)
        → Keeps t
        → IsRead req
        → IsCalmRetrieval (retrieve_for callbacks t req links path block2 (accept req))
    retrieve_for-IsCalm t req path block2 h hr =
        let (af, e) = accept-IsRead req hr in
        let addr = req.meta.remote_addr in
        let (kept, quiet) =
          retrieve-IsCalm Keeps links calm addr path af links.rounds 1 block2.size t req.payload
            h in
        rw e (
          completed-IsCalm req
            (retrieve (links.send_to addr) path af links.rounds 1 block2.size t req.payload) hr kept
            quiet)

    block_retreive-IsCalm :
        (t : Tables C O) (req : Message)
        → Keeps t
        → IsRead req
        → IsCalmRetrieval (block_retreive callbacks t req links)
    unfolding block_retreive load
    block_retreive-IsCalm t req h hr =
        let seen = get_observe callbacks.not_found t.observations req in
        elim (Option-cases seen.1) [
          | inl e ↦ rw (e, block_retreive) (h, tt)
          | inr (o, e) ↦ elim (Option-cases (get_block2 req)) [
            | inl e2 ↦ rw (e, block_retreive) (rw e2 (h, tt))
            | inr (block2, e2) ↦
                rw (e, block_retreive)
                  (rw e2 (
                    retrieve_for-IsCalm (record t { observations = seen.0 }) req o.path block2 h
                      hr))
          ]
        ]

    ack_sent-NoPanic :
        (req : Message) (r : Tables C O × Message × Result (Option Message))
        → IsRead req
        → Keeps r.0
        → NoPanic (IsReturned (first_ack to_string_array callbacks cfg req)) r.2
        → NoPanic IsCalmStage (ack_sent to_string_array callbacks cfg req links r)
    ack_sent-NoPanic req (t, m, ok rsp) hr h hq =
        retrieved-NoPanic req (block_retreive callbacks t req links) hr
          (block_retreive-IsCalm t req h hr)
    ack_sent-NoPanic req (t, m, err e) hr h hq =
        retrieved-NoPanic req (block_retreive callbacks t req links) hr
          (block_retreive-IsCalm t req h hr)
    ack_sent-NoPanic req (t, m, panic) hr h hq = absurd hq
    ack_sent-NoPanic req (t, m, stuck) hr h hq = tt

    pub serve_block2-NoPanic :
        (t : Tables C O) (req : Message) (block2 : Option BlockMetadata)
        → Keeps t
        → IsRead req
        → NoPanic IsCalmStage (serve_block2 to_string_array callbacks cfg t req links block2)
    unfolding serve_block2 make_reply
    serve_block2-NoPanic t req none h hr = (h, hr, tt)
    serve_block2-NoPanic t req (some block2) h hr =
        let ack = first_ack to_string_array callbacks cfg req in
        let addr = req.meta.remote_addr in
        if-NoPanic IsCalmStage (is_request req) _ _
          (fetched-NoPanic t req _ h hr (
            block_cache_get-NoPanic to_string_array cfg.clock t.block_cache req (pos block2.num)
              block2.size h hr))
          (if-NoPanic IsCalmStage (block2.more && (block2.num == 0)) _ _
            (ack_sent-NoPanic req (links.send_to addr t ack) hr (calm.kept addr t ack h tt)
              (calm.returned addr t ack h tt))
            (h, hr, tt))
