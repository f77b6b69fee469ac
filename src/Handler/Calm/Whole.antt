-- ===== src/Handler/Calm/Whole.antt =====
-- handler.go: panics in handleMessage.
use coap.Base.{
  Bool, true, false, List, Option, none, some, ◌==◌, ◌||◌, NoPanic, >>=-NoPanic, if-NoPanic,
  if◌then◌else◌, Bool-cases, Option-cases, inl, inr,
}
use coap.Options.{Bytes, Value}
use coap.Message.{Message}
use coap.Message.Read.{IsRead}
use coap.Block.{BlockMetadata, get_block1, get_block2}
use coap.Dedup.{Dedup, entry_of, enter, deduplicate}
use coap.Dedup.Once.{deduplicate_new, deduplicate_known}
use coap.Dedup.Sendable.{IsSendableReply, IsSendableDedup, enter-IsSendable, save-IsSendable}
use coap.Observe.{Links}
use coap.Observe.Calm.{AreCalm}
use coap.Dispatch.{Callbacks, Tables, acknowledge, dispatch}
use coap.Transfer.{
  Config, Stage, replied, proceed, set_block_size, collect_block1, serve_block2, split_reply,
}
use coap.Handler.{
  Server, stamp, finish, answer, after_ack, after_block1, handle_new, saved, after_deduplicate,
  handle_message,
}
use coap.Handler.Calm.{Answers, Keeps, IsCalmReply, dispatch-NoPanic}
use coap.Handler.Calm.Stages.{IsCalmStage, collect_block1-NoPanic, serve_block2-NoPanic}
use coap.Handler.Calm.Reply.{split_reply-NoPanic}

-- All that a server stores, and may send later, can be written.
abbrev pub IsCalmServer : {C O : Type 0} → Server C O → Type 0
IsCalmServer s = Keeps s.tables × IsSendableDedup s.dedup

abbrev pub IsCalmResult : {C O : Type 0} → Server C O × Option Message → Type 0
IsCalmResult (s, rsp) = IsCalmServer s × IsSendableReply rsp

stamp-IsSendable :
    (cfg : Config) (req : Message) (rsp : Option Message)
    → IsSendableReply rsp
    → IsSendableReply (stamp cfg req rsp)
stamp-IsSendable cfg req none h = tt
stamp-IsSendable cfg req (some rsp) h = h

unless-IsSendable :
    (b : Bool) (rsp : Option Message)
    → IsSendableReply rsp
    → IsSendableReply (if b then none else rsp)
unless-IsSendable true rsp h = tt
unless-IsSendable false rsp h = h

set_block_size-IsRead :
    {C O : Type 0} (to_string_array : List Value → List Bytes) (callbacks : Callbacks C O)
    (cfg : Config) (req : Message) (block2 block1 : Option BlockMetadata)
    → IsRead req
    → IsRead (set_block_size to_string_array callbacks cfg req block2 block1)
set_block_size-IsRead to_string_array callbacks cfg req (some block2) block1 h = h
set_block_size-IsRead to_string_array callbacks cfg req none (some block1) h = h
set_block_size-IsRead to_string_array callbacks cfg req none none h = h

module _ {C O : Type 0} (to_string_array : List Value → List Bytes) (callbacks : Callbacks C O)
    (answers : Answers callbacks) (cfg : Config) (links : Links (Tables C O))
    (calm : AreCalm Keeps links) where
  finish-NoPanic :
      (block1 block2 : Option BlockMetadata) (req : Message) (r : Tables C O × Option Message)
      → IsRead req
      → IsCalmReply r
      → NoPanic IsCalmReply (finish to_string_array callbacks cfg block1 block2 req r)
  finish-NoPanic block1 block2 req (t, rsp) hr (h, hs) =
      >>=-NoPanic IsCalmReply IsCalmReply
        (split_reply to_string_array callbacks cfg t req block1 block2 rsp) _
        (split_reply-NoPanic to_string_array callbacks cfg t req block1 block2 rsp h hr hs)
        (λ r hq. (hq.0, stamp-IsSendable cfg req r.1 hq.1))

  answer-NoPanic :
      (block1 block2 : Option BlockMetadata) (req : Message) (stage : Stage C O)
      → IsCalmStage stage
      → NoPanic IsCalmReply (answer to_string_array callbacks cfg block1 block2 req stage)
  answer-NoPanic block1 block2 req (replied t rsp) (h, hs) = (h, stamp-IsSendable cfg req rsp hs)
  answer-NoPanic block1 block2 req (proceed t req' rsp) (h, hr, hs) =
      let sized = set_block_size to_string_array callbacks cfg req' block2 block1 in
      let read = set_block_size-IsRead to_string_array callbacks cfg req' block2 block1 hr in
      >>=-NoPanic IsCalmReply IsCalmReply (dispatch callbacks t sized rsp) _
        (dispatch-NoPanic callbacks answers t sized rsp h read hs)
        (λ r hq. finish-NoPanic block1 block2 sized r read hq)

  after_ack-NoPanic :
      (block1 : Option BlockMetadata) (req : Message) (t : Tables C O) (found : Bool)
      → IsRead req
      → Keeps t
      → NoPanic IsCalmReply (after_ack to_string_array callbacks cfg block1 links req (t, found))
  after_ack-NoPanic block1 req t true hr h = (h, tt)
  after_ack-NoPanic block1 req t false hr h =
      >>=-NoPanic IsCalmStage IsCalmReply
        (serve_block2 to_string_array callbacks cfg t req links (get_block2 req)) _
        (serve_block2-NoPanic to_string_array callbacks cfg links calm t req (get_block2 req) h hr)
        (λ stage hs. answer-NoPanic block1 (get_block2 req) req stage hs)

  after_block1-NoPanic :
      (block1 : Option BlockMetadata) (req : Message) (stage : Stage C O)
      → IsCalmStage stage
      → NoPanic IsCalmReply (after_block1 to_string_array callbacks cfg block1 links req stage)
  after_block1-NoPanic block1 req (replied t rsp) (h, hs) = (h, stamp-IsSendable cfg req rsp hs)
  after_block1-NoPanic block1 req (proceed t req' rsp) (h, hr, hs) =
      let (t', found) = acknowledge callbacks t req' in
      elim (Bool-cases (req'.type == 2)) [
        | inl z ↦ rw z (after_ack-NoPanic block1 req' t' found hr h)
        | inr z ↦ rw z (after_ack-NoPanic block1 req' t false hr h)
      ]

  handle_new-NoPanic :
      (t : Tables C O) (req : Message)
      → Keeps t
      → IsRead req
      → NoPanic IsCalmReply (handle_new to_string_array callbacks cfg links t req)
  unfolding handle_new
  handle_new-NoPanic t req h hr =
      >>=-NoPanic IsCalmStage IsCalmReply
        (collect_block1 to_string_array callbacks cfg t req (get_block1 req)) _
        (collect_block1-NoPanic to_string_array callbacks cfg t req (get_block1 req) h hr)
        (λ stage hs. after_block1-NoPanic (get_block1 req) req stage hs)

  saved-IsCalm :
      (d : Dedup) (req : Message) (r : Tables C O × Option Message)
      → IsSendableDedup d
      → IsCalmReply r
      → IsCalmResult (saved to_string_array callbacks cfg d req r)
  saved-IsCalm d req (t, none) hd (h, hs) = ((h, hd), tt)
  saved-IsCalm d req (t, some rsp) hd (h, hs) =
      ((h, save-IsSendable d req.meta.remote_addr req.message_id rsp hs hd), hs)

  after_deduplicate-NoPanic :
      (s : Server C O) (req : Message)
      → IsCalmServer s
      → IsRead req
      → NoPanic IsCalmResult (
          after_deduplicate to_string_array callbacks cfg links s req
            (deduplicate cfg.deduplicate_expiration s.dedup req))
  after_deduplicate-NoPanic s req (h, hd) hr =
      elim (Option-cases (entry_of s.dedup req.meta.remote_addr req.message_id)) [
        | inl e ↦
            let d = enter cfg.deduplicate_expiration s.dedup req in
            let entered = enter-IsSendable cfg.deduplicate_expiration s.dedup req hd in
            rw (deduplicate_new cfg.deduplicate_expiration s.dedup req e) (
              >>=-NoPanic IsCalmReply IsCalmResult
                (handle_new to_string_array callbacks cfg links s.tables req) _
                (handle_new-NoPanic s.tables req h hr) (λ r hq. saved-IsCalm d req r entered hq))
        | inr (entry, e) ↦
            let stored =
              stamp-IsSendable cfg req entry.rsp (hd req.meta.remote_addr req.message_id entry e) in
            rw (deduplicate_known cfg.deduplicate_expiration s.dedup req e)
              ((h, hd), unless-IsSendable entry.pending (stamp cfg req entry.rsp) stored)
      ]

  -- A message that was read from a datagram, at a server that stores only what can be written.
  pub handle_message-NoPanic :
      (s : Server C O) (req : Message)
      → IsCalmServer s
      → IsRead req
      → NoPanic IsCalmResult (handle_message to_string_array callbacks cfg links s req)
  unfolding handle_message
  handle_message-NoPanic s req (h, hd) hr =
      if-NoPanic IsCalmResult (req.type == 3) _ _ ((h, hd), tt)
        (if-NoPanic IsCalmResult ((req.type == 0) || (req.type == 1)) _ _
          (after_deduplicate-NoPanic s req (h, hd) hr)
          (>>=-NoPanic IsCalmReply IsCalmResult
            (handle_new to_string_array callbacks cfg links s.tables req) _
            (handle_new-NoPanic s.tables req h hr) (λ r hq. ((hq.0, hd), hq.1))))
