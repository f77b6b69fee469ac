-- ===== src/Handler/Answer.antt =====
-- handler.go: a request that goes through to a route's callback.
use coap.Observe.{Links}
use coap.Base.{
  ◌≤◌, ◌<◌, ◌≡◌, ◌≢◌, refl, ◌∙◌, true, false, List, Option, none, some, ◌==◌, ltb, length, ok,
  arith,
}
use coap.Options.{Bytes, Value}
use coap.Message.{Message, path_string, path, option_strings, options, is_request, with_option}
use coap.Block.{BlockMetadata, get_block1, get_block2, with_block1, with_block}
use coap.Route.{match_routes}
use coap.Dispatch.{Callbacks, Tables, handle_confirmable, dispatch}
use coap.Transfer.{Config, proceed, requires_blockwise, collect_block1, serve_block2, split_reply}
use coap.Handler.{handle_new, stamp}

module _ {C O : Type 0} (to_string_array : List Value → List Bytes) (callbacks : Callbacks C O)
    (cfg : Config) where
  handle_confirmable-route :
      (t : Tables C O) (req : Message) (text : Bytes) (cb : C)
      (vars : Option (List (Bytes × Bytes)))
      → req.code ≢ 0
      → req.code < 10
      → path_string req ≡ some text
      → match_routes text t.routes req.path_vars ≡ (some cb, vars)
      → handle_confirmable callbacks t req
        ≡ ok (t, callbacks.call cb (record req { path_vars = vars }))
  unfolding handle_confirmable
  handle_confirmable-route t req text cb vars c0 c10 ep em =
      let z : (req.code == 0) ≡ false = ground arith in
      let h : ltb 10 req.code ≡ false = ground arith in rw (z, h) (rw ep (rw em refl))

  pub dispatch-route :
      (t : Tables C O) (req : Message) (text : Bytes) (cb : C)
      (vars : Option (List (Bytes × Bytes)))
      → req.type ≡ 0
      → req.code ≢ 0
      → req.code < 10
      → path_string req ≡ some text
      → match_routes text t.routes req.path_vars ≡ (some cb, vars)
      → dispatch callbacks t req none ≡ ok (t, callbacks.call cb (record req { path_vars = vars }))
  unfolding dispatch is_request
  dispatch-route t req text cb vars et c0 c10 ep em =
      let z : (req.type == 0) ≡ true = ground arith in
      let h : ltb req.code 10 ≡ true = ground arith in
      rw (z, h) (handle_confirmable-route t req text cb vars c0 c10 ep em)

  -- The request as the dispatch sees it: with the block size of its block option.
  abbrev pub sized : Message → BlockMetadata → Message
  sized req block1 = record req { meta = record req.meta { block_size = block1.size } }

  path_string-sized :
      (req : Message) (block1 : BlockMetadata) → path_string (sized req block1) ≡ path_string req
  unfolding path_string path option_strings options
  path_string-sized req block1 = refl

  pub requires_blockwise-small :
      (m : Message)
      → m.meta.max_message_size ≡ 0
      → length m.payload ≤ m.meta.block_size
      → requires_blockwise m ≡ ok (m, false)
  unfolding requires_blockwise
  requires_blockwise-small m hm hl = ground arith

  split_reply-small :
      (t : Tables C O) (req rsp : Message) (block1 : BlockMetadata)
      → rsp.meta.max_message_size ≡ 0
      → length rsp.payload ≤ rsp.meta.block_size
      → split_reply to_string_array callbacks cfg t req (some block1) none (some rsp)
        ≡ ok (t, some (with_block1 rsp (some block1)))
  unfolding split_reply with_block1 with_block with_option
  split_reply-small t req rsp block1 hm hl =
      rw (requires_blockwise-small (with_block1 rsp (some block1)) hm hl, split_reply) refl

  -- The last part of an upload, which the stage of the parts lets through with all of the payload:
  -- the callback of its route runs on it, and the reply is the callback's with the part's own block
  -- option.
  pub handle_new-answer :
      (links : Links (Tables C O)) (t t1 : Tables C O) (req req1 rsp : Message)
      (block1 : BlockMetadata) (text : Bytes) (cb : C) (vars : Option (List (Bytes × Bytes)))
      → get_block1 req ≡ some block1
      → collect_block1 to_string_array callbacks cfg t req (get_block1 req)
        ≡ ok (proceed t1 req1 none)
      → req1.type ≡ 0
      → req1.code ≢ 0
      → req1.code < 10
      → get_block2 req1 ≡ none
      → path_string req1 ≡ some text
      → match_routes text t1.routes req1.path_vars ≡ (some cb, vars)
      → callbacks.call cb (record (sized req1 block1) { path_vars = vars }) ≡ some rsp
      → rsp.meta.max_message_size ≡ 0
      → length rsp.payload ≤ rsp.meta.block_size
      → handle_new to_string_array callbacks cfg links t req
        ≡ ok (t1, stamp cfg (sized req1 block1) (some (with_block1 rsp (some block1))))
  unfolding handle_new serve_block2
  handle_new-answer links t t1 req req1 rsp block1 text cb vars eb es et c0 c10 e2 ep em er hm hl =
      let na : (req1.type == 2) ≡ false = ground arith in
      let d =
        dispatch-route t1 (sized req1 block1) text cb vars et c0 c10
          (path_string-sized req1 block1 ∙ ep) em in
      rw (es, eb, handle_new)
        (rw na (
          rw e2 (rw (d, er) (rw (split_reply-small t1 (sized req1 block1) rsp block1 hm hl) refl))))
