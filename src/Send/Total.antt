-- ===== src/Send/Total.antt =====
-- send of send.go as a whole: its end, on a network that goes on giving it timers and messages.
use coap.Base.{
  ℕ, suc, ◌≤◌, ◌≡◌, refl, Bool, true, List, Option, none, some, length, Result, ok, err, panic,
  stuck, IsSafe, >>=-IsSafe, All,
}
use coap.Base.Int.{ℤ, pos}
use coap.Options.{Bytes}
use coap.Message.{Message, is_confirmable, is_request}
use coap.Message.Sendable.{IsSendable, marshal_binary-IsSafe}
use coap.Nstart.{NstartMap, nstart_inc}
use coap.Pending.{Pending, pending_save}
use coap.Wire.{marshal_binary}
use coap.Send.{
  Event, await, await_response, await_written, transmit, Endpoint, Network, send_prepared, send,
}
use coap.Send.Await.{IsAnswer, IsWritten, await-IsSafe}
use coap.Send.Counted.{prepare-confirmable}

-- A response, which is an answer among the events.
abbrev pub IsAnswered : Bool → List Event → Option Message → Type 0
IsAnswered request events none = ⊥
IsAnswered request events (some rsp) = IsAnswer request events rsp

await_written-IsSafe :
    (n entry : ℕ) (request : Bool) (events : List Event) (written : Result (Unit {0}))
    → IsSafe (λ (_ : Unit {0}). Unit {0}) written
    → All IsWritten events
    → suc n ≤ length events
    → IsSafe
        (IsAnswered request events)
        (await_written (pos n) request (some entry) events written).0
unfolding await_response
await_written-IsSafe n entry request events (err e) hw hs h = tt
await_written-IsSafe n entry request events panic hw hs h = absurd hw
await_written-IsSafe n entry request events stuck hw hs h = absurd hw
await_written-IsSafe n entry request events (ok u) hw hs h =
    >>=-IsSafe (IsAnswer request events) (IsAnswered request events)
      (await request (suc n) events).0 (λ rsp. ok (some rsp))
      (await-IsSafe request (suc n) events hs h) (λ rsp k. k)

module _ {W : Type 0} (network : Network W) (max_retransmit : ℕ) (n_start : ℤ) where
  -- The endpoint behind the entry of a confirmable message, and the message with its ids.
  abbrev pub entered : Endpoint W → NstartMap → Message → Endpoint W × Message
  entered e ns msg =
      let (p, msg', entry) = pending_save (network.random_token e.world) e.pending msg in
      (record e { nstart = ns; pending = p }, msg')

  -- What comes of the first write of such a message.
  abbrev pub write_of : Endpoint W → NstartMap → Message → Result (Unit {0})
  write_of e ns msg = let (ready, msg') = entered e ns msg in (network.written ready msg').1

  -- What the network gives to its wait.
  abbrev pub wait_of : Endpoint W → NstartMap → Message → List Event
  wait_of e ns msg = let (ready, msg') = entered e ns msg in (network.written ready msg').2

  send_prepared-IsSafe :
      (e : Endpoint W) (ns : NstartMap) (p : Pending) (msg msg' : Message) (entry : ℕ)
      (r : Result (Message × Bytes))
      → marshal_binary msg' ≡ r
      → IsSafe (λ _. Unit {0}) r
      → let (e', written, events) = network.written (record e { nstart = ns; pending = p }) msg' in
        IsSafe (λ (_ : Unit {0}). Unit {0}) written
        → All IsWritten events
        → suc max_retransmit ≤ length events
        → IsSafe
            (IsAnswered (is_request msg') events)
            (send_prepared network
              (pos max_retransmit)
              n_start
              e
              (some (ns, p, msg', some entry))
              msg).2
  unfolding transmit
  send_prepared-IsSafe e ns p msg msg' entry (ok b) em h hw hs patient =
      let (e', written, events) = network.written (record e { nstart = ns; pending = p }) msg' in
      rw (em, send_prepared, transmit, em)
        (await_written-IsSafe max_retransmit entry (is_request msg') events written hw hs patient)
  send_prepared-IsSafe e ns p msg msg' entry (err x) em h hw hs patient = rw (em, send_prepared) tt
  send_prepared-IsSafe e ns p msg msg' entry panic em h hw hs patient = absurd h
  send_prepared-IsSafe e ns p msg msg' entry stuck em h hw hs patient = absurd h

  -- A confirmable message with option values that can be written, that gets its place, and whose writes
  -- return nil or an error, as those of a server without a UDP listener to a proxy do not, is sent to
  -- the end: once the network has given its wait one event more than there are retransmissions,
  -- `send` has returned an error, or a response that came in this wait and is not the empty
  -- acknowledgement of a request.
  pub send-IsSafe :
      (e : Endpoint W) (msg : Message) (ns : NstartMap)
      → is_confirmable msg ≡ true
      → nstart_inc e.nstart msg.meta.remote_addr n_start ≡ some ns
      → IsSendable msg
      → IsSafe (λ (_ : Unit {0}). Unit {0}) (write_of e ns msg)
      → All IsWritten (wait_of e ns msg)
      → suc max_retransmit ≤ length (wait_of e ns msg)
      → IsSafe
          (IsAnswered (is_request msg) (wait_of e ns msg))
          (send network (pos max_retransmit) n_start e msg).2
  unfolding send pending_save is_request
  send-IsSafe e msg ns c en sendable hw hs patient =
      let fresh = network.random_token e.world in
      let (p', msg', entry) = pending_save fresh e.pending msg in
      rw (prepare-confirmable n_start fresh e.nstart ns e.pending msg c en) (
        send_prepared-IsSafe e ns p' msg msg' entry (marshal_binary msg') refl
          (marshal_binary-IsSafe msg' sendable) hw hs patient)
