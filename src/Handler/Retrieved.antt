-- ===== src/Handler/Retrieved.antt =====
-- handler.go, handler_notify.go and blockRetreive of send.go: a notification that comes in blocks.
use coap.Base.{
  ℕ, ◌+◌, ◌*◌, ◌^◌, ◌≤◌, ◌<◌, ◌≡◌, refl, ap, ◌∙◌, Bool, true, false, List, Option, none, some, ◌==◌,
  ltb, length, take, Result, ok, err, panic, stuck, IsSafe, arith,
}
use coap.Base.Int.{ℤ}
use coap.Base.Maps.{load, string_key}
use coap.Options.{Bytes, Value}
use coap.Message.{Message, accept, is_request, make_reset, type_acknowledgement}
use coap.Block.{BlockMetadata, block_init, get_block1, get_block2}
use coap.Block.Codec.{IsBlockSize}
use coap.Client.Fetch.{Provider}
use coap.Observe.{Observation, Links, NotFound, ObserveMap, get_observe, block_request, retrieve}
use coap.Observe.Retrieval.{retrieve_complete}
use coap.Dispatch.{Callbacks, Tables, dispatch, handle_notify, block_retreive, completed, notified}
use coap.Transfer.{
  Config, proceed, first_ack, ack_sent, requires_blockwise, collect_block1, serve_block2,
  split_reply, set_block_size,
}
use coap.Handler.{handle_new, stamp}

get_observe-found :
    {O : Type 0} (not_found : Option (NotFound O)) (m : ObserveMap O) (msg : Message)
    (o : Observation O)
    → load msg.token m ≡ some o
    → get_observe not_found m msg ≡ (m, some o)
unfolding get_observe
get_observe-found not_found m msg o e = rw (e, get_observe) refl

module _ {C O : Type 0} (to_string_array : List Value → List Bytes) (callbacks : Callbacks C O)
    (cfg : Config) where
  -- The answer to a notification that was retrieved: none, or a reset for an error.
  abbrev pub retrieved_answer : Message → Bool → Option Message
  retrieved_answer req true = none
  retrieved_answer req false = some (make_reset req req.code)

  notified-retrieved :
      (req : Message) (b : Bool) → req.type ≡ 2 → notified callbacks req b ≡ retrieved_answer req b
  notified-retrieved req true et = let z : (req.type == 0) ≡ false = ground arith in rw z refl
  notified-retrieved req false et = refl

  dispatch-retrieved :
      (t : Tables C O) (req : Message) (o : Observation O)
      → req.type ≡ 2
      → load req.token t.observations ≡ some o
      → dispatch callbacks t req none
        ≡ ok (t, retrieved_answer req (callbacks.notify o.callback req))
  unfolding dispatch handle_notify
  dispatch-retrieved t req o et el =
      let z0 : (req.type == 0) ≡ false = ground arith in
      let z1 : (req.type == 1) ≡ false = ground arith in
      let z2 : (req.type == 2) ≡ true = ground arith in
      let found = get_observe-found callbacks.not_found t.observations req o el in
      rw (z0, dispatch)
        (rw z1 (
          rw z2 (
            rw found
              (ap (λ r. ok (t, r)) (notified-retrieved req (callbacks.notify o.callback req) et)))))

  split_reply-retrieved :
      (t : Tables C O) (req : Message) (block2 : Option BlockMetadata) (b : Bool)
      → split_reply to_string_array callbacks cfg t req none block2 (retrieved_answer req b)
        ≡ ok (t, retrieved_answer req b)
  unfolding split_reply requires_blockwise
  split_reply-retrieved t req block2 true = refl
  split_reply-retrieved t req block2 false = refl

  block_retreive-found :
      (links : Links (Tables C O)) (t1 t2 : Tables C O) (req : Message) (o : Observation O) (sz : ℕ)
      (af : ℤ) (payload : Bytes)
      → load req.token t1.observations ≡ some o
      → get_block2 req ≡ some (block_init 0 true sz)
      → accept req ≡ some af
      → retrieve (links.send_to req.meta.remote_addr) o.path af links.rounds 1 sz t1 req.payload
        ≡ (t2, ok payload)
      → block_retreive callbacks t1 req links
        ≡ (t2, ok (record req { payload = payload; type = type_acknowledgement }))
  unfolding block_init block_retreive
  block_retreive-found links t1 t2 req o sz af payload el eb ea er =
      let found = get_observe-found callbacks.not_found t1.observations req o el in
      let seen = (get_observe callbacks.not_found t1.observations req).0 in
      let same : record t1 { observations = seen } ≡ t1 =
        ap (λ (x : ObserveMap O × Option (Observation O)). record t1 { observations = x.0 })
          found in
      let run =
        ap
          (λ x.
            retrieve (links.send_to req.meta.remote_addr) o.path af links.rounds 1 sz x req.payload)
          same in
      rw (found, block_retreive) (rw eb (rw ea (ap (completed callbacks req) (run ∙ er))))

  -- What the acknowledgement comes to does not matter.
  ack_sent-safe :
      (links : Links (Tables C O)) (t1 t2 : Tables C O) (req whole m1 : Message)
      (r : Result (Option Message))
      → IsSafe (λ _. Unit {0}) r
      → block_retreive callbacks t1 req links ≡ (t2, ok whole)
      → ack_sent to_string_array callbacks cfg req links (t1, m1, r) ≡ ok (proceed t2 whole none)
  ack_sent-safe links t1 t2 req whole m1 (ok rsp) safe e = rw (e, ack_sent) refl
  ack_sent-safe links t1 t2 req whole m1 (err x) safe e = rw (e, ack_sent) refl
  ack_sent-safe links t1 t2 req whole m1 panic safe e = absurd safe
  ack_sent-safe links t1 t2 req whole m1 stuck safe e = absurd safe

  handle_new-acked :
      (links : Links (Tables C O)) (t t1 t2 : Tables C O) (req m1 whole : Message)
      (r : Result (Option Message)) (o : Observation O) (sz : ℕ)
      → req.type ≤ 1
      → 10 ≤ req.code
      → get_block1 req ≡ none
      → get_block2 req ≡ some (block_init 0 true sz)
      → links.send_to req.meta.remote_addr t (first_ack to_string_array callbacks cfg req)
        ≡ (t1, m1, r)
      → IsSafe (λ _. Unit {0}) r
      → block_retreive callbacks t1 req links ≡ (t2, ok whole)
      → whole.type ≡ 2
      → load whole.token t2.observations ≡ some o
      → let sized = set_block_size to_string_array callbacks cfg whole (get_block2 req) none in
        handle_new to_string_array callbacks cfg links t req
        ≡ ok (t2, stamp cfg sized (retrieved_answer sized (callbacks.notify o.callback sized)))
  unfolding handle_new collect_block1 serve_block2 is_request block_init
  handle_new-acked links t t1 t2 req m1 whole r o sz et ec e1 e2 es safe eb ew el =
      let na : (req.type == 2) ≡ false = ground arith in
      let q : ltb req.code 10 ≡ false = ground arith in
      let sized = record whole { meta = record whole.meta { block_size = sz } } in
      let acked = ack_sent-safe links t1 t2 req whole m1 r safe eb in
      rw (e1, handle_new)
        (rw na (
          rw e2 (
            rw q (
              rw es (
                rw acked (
                  rw (dispatch-retrieved t2 sized o ew el) (
                    rw
                      (split_reply-retrieved t2 sized (some (block_init 0 true sz))
                        (callbacks.notify o.callback sized))
                      refl)))))))

  -- A notification of which the first block came, from an address behind which `links.send_to` serves
  -- its payload, in a block size of the format, and keeps the observation while it does; the
  -- acknowledgement of the first block may fail, but returns. Then as many rounds of sends as there
  -- are further blocks are enough, and the observation's callback gets the whole payload, as an
  -- acknowledgement. There is no reply, or a reset where the callback returns an error.
  pub handle_new-retrieved :
      (links : Links (Tables C O)) (t t1 : Tables C O) (req m1 : Message)
      (r : Result (Option Message)) (o : Observation O) (sz : ℕ) (af : ℤ) (payload : Bytes)
      (p : Provider (links.send_to req.meta.remote_addr) sz payload)
      → IsBlockSize sz
      → req.type ≤ 1
      → 10 ≤ req.code
      → get_block1 req ≡ none
      → get_block2 req ≡ some (block_init 0 true sz)
      → accept req ≡ some af
      → links.send_to req.meta.remote_addr t (first_ack to_string_array callbacks cfg req)
        ≡ (t1, m1, r)
      → IsSafe (λ _. Unit {0}) r
      → p.Serves t1
      → ((s : Tables C O) → p.Serves s → load req.token s.observations ≡ some o)
      → ((k : ℕ) → p.IsFor (block_request o.path af k sz))
      → req.payload ≡ take sz payload
      → sz < length payload
      → length payload ≤ sz + links.rounds * sz
      → 1 + links.rounds ≤ 2 ^ 20
      → let whole = record req { payload = payload; type = type_acknowledgement } in
        let sized = set_block_size to_string_array callbacks cfg whole (get_block2 req) none in
        (t2 : Tables C O) × (handle_new to_string_array callbacks cfg links t req
          ≡ ok (t2, stamp cfg sized (retrieved_answer sized (callbacks.notify o.callback sized))))
        × p.Serves t2
  handle_new-retrieved links t t1 req m1 r o sz af payload p format et ec e1 e2 ea es safe hs keeps
        asks ep lo hi hn =
      let whole = record req { payload = payload; type = type_acknowledgement } in
      let first : req.payload ≡ take (1 * sz) payload =
        ep ∙ ap (λ k. take k payload) (omega arith) in
      let (t2, er, hs2) =
        retrieve_complete (links.send_to req.meta.remote_addr) o.path af sz payload p format
          links.rounds 1 t1 req.payload asks hs first (omega arith) (omega arith) hn in
      let retrieved = block_retreive-found links t1 t2 req o sz af payload (keeps t1 hs) e2 ea er in
      (
        t2,
        handle_new-acked links t t1 t2 req m1 whole r o sz et ec e1 e2 es safe retrieved refl
            (keeps t2 hs2),
        hs2,
      )
