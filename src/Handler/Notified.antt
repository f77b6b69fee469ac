-- ===== src/Handler/Notified.antt =====
-- handler.go, handler_notify.go and observe.go: a notification from its datagram's message to the
-- callback that Observe entered, and back.
use coap.Observe.{Links}
use coap.Base.{
  ℕ, ◌≤◌, ◌≡◌, refl, ap, Bool, true, false, List, Option, none, some, ◌==◌, ltb, ok, arith,
}
use coap.Base.Int.{ℤ}
use coap.Options.{Bytes, Value, uint32, opt_observe}
use coap.Message.{Message, option, is_request, make_reset}
use coap.Block.{get_block1, get_block2}
use coap.Observe.{Observation, get_observe}
use coap.Observe.Remote.{HasTable, observe, observe-get_observe}
use coap.Client.{SendOptions}
use coap.Observe.{Sender}
use coap.Dispatch.{Callbacks, Tables, dispatch, handle_notify, empty_ack, notified}
use coap.Transfer.{Config, requires_blockwise, collect_block1, serve_block2, split_reply}
use coap.Handler.{handle_new, stamp}

-- The table of observations in the server's tables.
abbrev pub observations_table : {C O : Type 0} → HasTable (Tables C O) O
observations_table = record {
  table = λ t. t.observations;
  set = λ t m. record t { observations = m };
  table-set = λ t m. refl;
}

-- The answer to a confirmable notification: an empty acknowledgement, or a reset for an error.
abbrev pub verdict : Message → Bool → Message
verdict req true = empty_ack req
verdict req false = make_reset req req.code

module _ {C O : Type 0} (to_string_array : List Value → List Bytes) (callbacks : Callbacks C O)
    (cfg : Config) where
  notified-verdict :
      (req : Message) (b : Bool) → req.type ≡ 0 → notified callbacks req b ≡ some (verdict req b)
  notified-verdict req true et = let z : (req.type == 0) ≡ true = ground arith in rw z refl
  notified-verdict req false et = refl

  dispatch-notification :
      (t : Tables C O) (req : Message) (n : ℕ) (o : Observation O)
      → req.type ≡ 0
      → 10 ≤ req.code
      → option req opt_observe ≡ uint32 n
      → get_observe callbacks.not_found t.observations req ≡ (t.observations, some o)
      → dispatch callbacks t req none ≡ ok (t, some (verdict req (callbacks.notify o.callback req)))
  unfolding dispatch is_request handle_notify
  dispatch-notification t req n o et ec eo eg =
      let z : (req.type == 0) ≡ true = ground arith in
      let q : ltb req.code 10 ≡ false = ground arith in
      let answered = notified-verdict req (callbacks.notify o.callback req) et in
      rw (z, dispatch) (rw q (rw eo (rw eg (ap (λ r. ok (t, r)) answered))))

  split_reply-verdict :
      (t : Tables C O) (req : Message) (b : Bool)
      → split_reply to_string_array callbacks cfg t req none none (some (verdict req b))
        ≡ ok (t, some (verdict req b))
  unfolding split_reply requires_blockwise
  split_reply-verdict t req true = refl
  split_reply-verdict t req false = refl

  handle_new-notification :
      (links : Links (Tables C O)) (t : Tables C O) (req : Message) (n : ℕ) (o : Observation O)
      → req.type ≡ 0
      → 10 ≤ req.code
      → get_block1 req ≡ none
      → get_block2 req ≡ none
      → option req opt_observe ≡ uint32 n
      → get_observe callbacks.not_found t.observations req ≡ (t.observations, some o)
      → handle_new to_string_array callbacks cfg links t req
        ≡ ok (t, stamp cfg req (some (verdict req (callbacks.notify o.callback req))))
  unfolding handle_new collect_block1 serve_block2
  handle_new-notification links t req n o et ec e1 e2 eo eg =
      let na : (req.type == 2) ≡ false = ground arith in
      let d = dispatch-notification t req n o et ec eo eg in
      rw (e1, handle_new)
        (rw na
          (rw e2 (rw d (rw (split_reply-verdict t req (callbacks.notify o.callback req)) refl))))

  -- An Observe that returned a token, over any `send` on the server's tables: a confirmable
  -- notification with that token and an Observe option, which is no part of a block transfer, goes
  -- to the callback that was given to Observe, whatever the callback for unknown tokens does, and is
  -- answered with an empty acknowledgement, or with a reset where the callback returns an error. The
  -- tables stay as they are.
  pub observe-handle_new :
      (send : Sender (Tables C O)) (fuel : ℕ) (options : SendOptions) (addr : Bytes) (code : ℕ)
      (path : Bytes) (payload : Option Bytes) (encoding : ℤ) (callback : O) (t t' : Tables C O)
      (token : Bytes) (rsp req : Message) (links : Links (Tables C O)) (n : ℕ)
      → observe observations_table send fuel options addr code path payload encoding callback t
        ≡ (t', ok (token, rsp))
      → req.token ≡ token
      → req.type ≡ 0
      → 10 ≤ req.code
      → get_block1 req ≡ none
      → get_block2 req ≡ none
      → option req opt_observe ≡ uint32 n
      → handle_new to_string_array callbacks cfg links t' req
        ≡ ok (t', stamp cfg req (some (verdict req (callbacks.notify callback req))))
  observe-handle_new send fuel options addr code path payload encoding callback t t' token rsp req
        links n e et ty ec e1 e2 eo =
      handle_new-notification links t' req n (record { path = path; callback = callback }) ty ec e1
        e2 eo
        (observe-get_observe observations_table send fuel options addr code path payload encoding
          callback t t' token rsp req callbacks.not_found e et)
