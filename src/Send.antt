-- ===== src/Send.antt =====
-- send of send.go: a message takes its place, is entered as pending and written, and waits for its
-- response with retransmissions. What the network and the clock do is a sequence of events.
pub mod Address
pub mod Await
pub mod Limit
pub mod Counted
pub mod Calm
pub mod Total
use coap.Base.{
  ℕ, zero, suc, ◌+◌, Bool, true, false, List, [], ◌∷◌, Option, none, some, ◌==◌, if◌then◌else◌, ltb,
  Error, Result, ok, err, panic, stuck, ◌>>=◌, ◌>>◌, timeout,
}
use coap.Base.Int.{ℤ, pos, negsuc}
use coap.Options.{Bytes}
use coap.Message.{Message, is_confirmable, is_request}
use coap.Send.Address.{extract_proxy_name}
use coap.Nstart.{NstartMap, nstart_inc, nstart_dec}
use coap.Pending.{Pending, get_next_msg_id, pending_save}
use coap.Wire.{marshal_binary, sort_opts}

-- What a `select` of `send` takes: a message of the channel, or the timer. With the timer goes what
-- comes of the write of the retransmission, if there is one: nil, an error, or a panic of the write.
pub data Event : Type 0 where
  received : Message → Event
  elapsed : Result (Unit {0}) → Event

-- An empty acknowledgement of a request: the response comes later.
unfoldable pub is_delayed : Bool → Message → Bool
is_delayed request rsp = if rsp.code == 0 then request else false

-- The message was written again: an error ends the loop, and so does a panic.
abbrev again : Result (Unit {0}) → Result Message × ℕ → Result Message × ℕ
again (ok _) (r, n) = (r, n + 1)
again (err e) rest = (err e, 1)
again panic rest = (panic, 1)
again stuck rest = (stuck, 1)

-- The retransmission loop with so many rounds left: the response or the error, and how many times
-- the message was written again. `stuck` where the events end before the loop does.
unfoldable pub await : Bool → ℕ → List Event → Result Message × ℕ
unfolding is_delayed
await request zero events = (err timeout, 0)
await request (suc left) [] = (stuck, 0)
await request (suc left) (received rsp ∷ events) =
    let rest = await request left events in if is_delayed request rsp then rest else (ok rsp, 0)
await request (suc left) (elapsed written ∷ events) =
    let rest = await request left events in if ltb 0 left then again written rest else rest

-- Without retransmissions there is one `select`, and it returns what comes.
abbrev await_once : List Event → Result Message × ℕ
await_once [] = (stuck, 0)
await_once (received rsp ∷ events) = (ok rsp, 0)
await_once (elapsed written ∷ events) = (err timeout, 0)

-- The branch on `options.MaxRetransmit`, which is -1 for no retransmissions.
unfoldable pub await_response : ℤ → Bool → List Event → Result Message × ℕ
await_response (pos max_retransmit) request events = await request (suc max_retransmit) events
await_response (negsuc zero) request events = await_once events
await_response (negsuc (suc _)) request events = (err timeout, 0)

-- What `send` does before it writes, where the message has its address already: the state, the message with its ids, and the entry that a
-- confirmable message waits at. `none` is the wait of `nstartInc`.
unfoldable pub prepare :
    ℤ → Bytes → NstartMap → Pending → Message → Option (NstartMap × Pending × Message × Option ℕ)
prepare n_start fresh ns p msg =
    if is_confirmable msg
    then elim (nstart_inc ns msg.meta.remote_addr n_start) [
      | none ↦ none
      | some ns' ↦ let (p', msg', pe) = pending_save fresh p msg in some (ns', p', msg', some pe)
    ]
    else if msg.message_id == 0
    then (let (p', id) = get_next_msg_id p in some (ns, p', record msg { message_id = id }, none))
    else some (ns, p, msg, none)

abbrev some_response : Result Message × ℕ → Result (Option Message) × ℕ
some_response (r, n) = ((r >>= λ m. ok (some m)), n)

-- The wait of a confirmable message, behind the first write.
abbrev await_written :
    ℤ → Bool → Option ℕ → List Event → Result (Unit {0}) → Result (Option Message) × ℕ
await_written max_retransmit request pe events (err e) = (err e, 0)
await_written max_retransmit request pe events panic = (panic, 0)
await_written max_retransmit request pe events stuck = (stuck, 0)
await_written max_retransmit request none events (ok _) = (ok none, 0)
await_written max_retransmit request (some pe) events (ok _) =
    some_response (await_response max_retransmit request events)

-- The rest of `send` on a prepared message: it is marshalled and written, and a confirmable one
-- waits. `written` is what comes of the first write.
unfoldable pub transmit :
    ℤ → Message → Option ℕ → Result (Unit {0}) → List Event → Result (Option Message) × ℕ
transmit max_retransmit msg pe written events = elim (marshal_binary msg) [
  | ok _ ↦ await_written max_retransmit (is_request msg) pe events written
  | err e ↦ (err e, 0)
  | panic ↦ (panic, 0)
  | stuck ↦ (stuck, 0)
]

-- What `send` works on: the two tables that it changes, and the world outside.
pub record Endpoint (W : Type 0) : Type 0 where
  pub nstart : NstartMap
  pub pending : Pending
  pub world : W

-- The random token for a message; the name of the DTLS listener where it has a peer of an address, and
-- that of the UDP listener; and what happens to a message that is written: what comes of the first
-- write, a panic included, the events of the wait, and the endpoint behind it, which other goroutines
-- have changed meanwhile.
pub record Network (W : Type 0) : Type 0 where
  pub random_token : W → Bytes
  pub dtls_name : W → Bytes → Option Bytes
  pub udp_name : W → Option Bytes
  pub written : Endpoint W → Message → Endpoint W × Result (Unit {0}) × List Event

module _ {W : Type 0} (network : Network W) (max_retransmit n_start : ℤ) where
  -- `defer nstartDec(addr)` of a confirmable message.
  abbrev leave : Option ℕ → Message → Endpoint W → Endpoint W
  leave none msg e = e
  leave (some _) msg e = record e { nstart = nstart_dec e.nstart msg.meta.remote_addr }

  -- `msg.Meta.ListenerName`: the proxy of the address, or else the listener that writes to it.
  abbrev listener_for : W → Bytes → Bytes → Option Bytes
  listener_for w addr (c ∷ name) = some (c ∷ name)
  listener_for w addr [] = elim (network.dtls_name w addr) [
    | some name ↦ some name
    | none ↦ network.udp_name w
  ]

  abbrev with_listener_name : Option Bytes → Message → Message
  with_listener_name none msg = msg
  with_listener_name (some name) msg = record msg {
    meta = record msg.meta { listener_name = name };
  }

  abbrev sent_by : W → Message → Message
  sent_by w msg =
      let addr = msg.meta.remote_addr in
      with_listener_name (listener_for w addr (extract_proxy_name addr)) msg

  abbrev send_prepared :
      Endpoint W
      → Option (NstartMap × Pending × Message × Option ℕ)
      → Message
      → Endpoint W × Message × Result (Option Message)
  send_prepared e none msg = (e, msg, stuck)
  send_prepared e (some (ns, p, msg', pe)) msg =
      let ready = record e { nstart = ns; pending = p } in
      elim (marshal_binary msg') [
        | ok _ ↦
            let (e', written, events) = network.written ready msg' in
            (
              leave pe msg' e',
              sent_by e.world (sort_opts msg'),
              (transmit max_retransmit msg' pe written events).0,
            )
        | err error ↦ (leave pe msg' ready, sort_opts msg', err error)
        | panic ↦ (leave pe msg' ready, sort_opts msg', panic)
        | stuck ↦ (leave pe msg' ready, sort_opts msg', stuck)
      ]

  -- `send` on a message that has its address: the endpoint, the message as it is changed in place,
  -- and the response, which is nil where none is awaited.
  unfoldable pub send : Endpoint W → Message → Endpoint W × Message × Result (Option Message)
  unfolding prepare transmit
  send e msg =
      send_prepared e (prepare n_start (network.random_token e.world) e.nstart e.pending msg) msg
