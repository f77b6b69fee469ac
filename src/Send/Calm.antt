-- ===== src/Send/Calm.antt =====
-- send of send.go behind the sends of handler.go and of blockRetreive: panics.
use coap.Base.{
  All, ℕ, zero, suc, ◌≡◌, ◌≢◌, refl, Bool, true, false, List, [], ◌∷◌, Option, none, some, ◌==◌,
  ltb, if◌then◌else◌, Result, ok, err, panic, stuck, NoPanic, >>=-NoPanic, Bool-cases, inl, inr,
  arith,
}
use coap.Base.Int.{ℤ, pos, negsuc}
use coap.Options.{Bytes}
use coap.Message.{Message, is_confirmable, is_request}
use coap.Message.Sendable.{IsSendable, marshal_binary-NoPanic}
use coap.Nstart.{NstartMap, nstart_inc}
use coap.Pending.{Pending, pending_save, get_next_msg_id}
use coap.Wire.{marshal_binary}
use coap.Observe.Calm.{IsReturned}
use coap.Send.{
  Event, received, elapsed, is_delayed, again, await, await_response, await_written, transmit,
  prepare, Endpoint, Network, send_prepared, send,
}

abbrev Calm : {A : Type 0} → Result A → Type 0
Calm r = NoPanic (λ _. Unit {0}) r

if-Calm : (b : Bool) (x y : Result Message × ℕ) → Calm x.0 → Calm y.0 → Calm (if b then x else y).0
if-Calm true x y h k = h
if-Calm false x y h k = k

again-Calm :
    (written : Result (Unit {0})) (rest : Result Message × ℕ)
    → Calm written
    → Calm rest.0
    → Calm (again written rest).0
again-Calm (ok u) rest hw h = h
again-Calm (err e) rest hw h = tt
again-Calm panic rest hw h = hw
again-Calm stuck rest hw h = tt

-- The write of a retransmission does not panic.
abbrev pub IsCalmEvent : Event → Type 0
IsCalmEvent (received rsp) = Unit {0}
IsCalmEvent (elapsed written) = Calm written

await-Calm :
    (request : Bool) (left : ℕ) (events : List Event)
    → All IsCalmEvent events
    → Calm (await request left events).0
unfolding await
await-Calm request zero events h = tt
await-Calm request (suc left) [] h = tt
await-Calm request (suc left) (received rsp ∷ events) (h, hs) =
    let rest = await request left events in
    if-Calm (is_delayed request rsp) rest (ok rsp, 0) (await-Calm request left events hs) tt
await-Calm request (suc left) (elapsed written ∷ events) (h, hs) =
    let rest = await request left events in
    if-Calm (ltb 0 left) (again written rest) rest
      (again-Calm written rest h (await-Calm request left events hs))
      (await-Calm request left events hs)

await_response-Calm :
    (max_retransmit : ℤ) (request : Bool) (events : List Event)
    → All IsCalmEvent events
    → Calm (await_response max_retransmit request events).0
unfolding await_response
await_response-Calm (pos n) request events h = await-Calm request (suc n) events h
await_response-Calm (negsuc zero) request [] h = tt
await_response-Calm (negsuc zero) request (received rsp ∷ events) h = tt
await_response-Calm (negsuc zero) request (elapsed written ∷ events) h = tt
await_response-Calm (negsuc (suc n)) request events h = tt

-- An entry to wait at, unless the message is not a confirmable one.
abbrev HasEntry : Message → Option ℕ → Type 0
HasEntry m (some entry) = Unit {0}
HasEntry m none = m.type ≢ 0

await_written-IsReturned :
    (m : Message) (max_retransmit : ℤ) (request : Bool) (entry : Option ℕ) (events : List Event)
    (written : Result (Unit {0}))
    → Calm written
    → All IsCalmEvent events
    → HasEntry m entry
    → NoPanic (IsReturned m) (await_written max_retransmit request entry events written).0
await_written-IsReturned m n request entry events (err e) hw hs h = tt
await_written-IsReturned m n request entry events panic hw hs h = absurd hw
await_written-IsReturned m n request entry events stuck hw hs h = tt
await_written-IsReturned m n request none events (ok u) hw hs h = h
await_written-IsReturned m n request (some pe) events (ok u) hw hs h =
    >>=-NoPanic (λ _. Unit {0}) (IsReturned m) (await_response n request events).0
      (λ r. ok (some r)) (await_response-Calm n request events hs) (λ r _. tt)

-- A prepared message can be written like the one it is made from, and waits if that one is confirmable.
abbrev IsReady : Message → Option (NstartMap × Pending × Message × Option ℕ) → Type 0
IsReady m none = Unit {0}
IsReady m (some (ns, p, m', entry)) = IsSendable m' × HasEntry m entry

not_confirmable : (m : Message) → is_confirmable m ≡ false → m.type ≢ 0
unfolding is_confirmable
not_confirmable m e = ground arith

elim-IsReady :
    (m : Message) (ns' : Option NstartMap)
    (f : NstartMap → Option (NstartMap × Pending × Message × Option ℕ))
    → ((ns : NstartMap) → IsReady m (f ns))
    → IsReady m (elim ns' [ none ↦ none | some ns ↦ f ns ])
elim-IsReady m none f h = tt
elim-IsReady m (some ns) f h = h ns

prepare-IsReady :
    (n_start : ℤ) (fresh : Bytes) (ns : NstartMap) (p : Pending) (m : Message)
    → IsSendable m
    → IsReady m (prepare n_start fresh ns p m)
unfolding prepare pending_save get_next_msg_id is_confirmable
prepare-IsReady n_start fresh ns p m h = elim (Bool-cases (is_confirmable m)) [
  | inl e ↦ rw e (elim-IsReady m (nstart_inc ns m.meta.remote_addr n_start) _ (λ ns'. (h, tt)))
  | inr e ↦
      let other : m.type ≢ 0 = not_confirmable m e in
      elim (Bool-cases (m.message_id == 0)) [
        | inl z ↦ rw (e, z) (h, other)
        | inr z ↦ rw (e, z) (h, other)
      ]
]

-- No write of the network panics, neither the first one of a message nor a retransmission.
abbrev pub AreWritten : {W : Type 0} → Network W → Type 0
AreWritten {W} network =
    (e : Endpoint W) (m : Message)
    → Calm (network.written e m).1 × All IsCalmEvent (network.written e m).2

module _ {W : Type 0} (network : Network W) (calm : AreWritten network)
    (max_retransmit n_start : ℤ) where
  send_marshalled :
      (e : Endpoint W) (ns : NstartMap) (p : Pending) (m m' : Message) (entry : Option ℕ)
      (r : Result (Message × Bytes))
      → marshal_binary m' ≡ r
      → NoPanic (λ _. Unit {0}) r
      → HasEntry m entry
      → NoPanic
          (IsReturned m)
          (send_prepared network max_retransmit n_start e (some (ns, p, m', entry)) m).2
  unfolding transmit
  send_marshalled e ns p m m' entry (ok b) em h he =
      let ready = record e { nstart = ns; pending = p } in
      let (e', written, events) = network.written ready m' in
      rw (em, send_prepared, transmit, em)
        (await_written-IsReturned m max_retransmit (is_request m') entry events written
          (calm ready m').0 (calm ready m').1 he)
  send_marshalled e ns p m m' entry (err x) em h he = rw (em, send_prepared) tt
  send_marshalled e ns p m m' entry stuck em h he = rw (em, send_prepared) tt
  send_marshalled e ns p m m' entry panic em h he = absurd h

  send_prepared-IsReturned :
      (e : Endpoint W) (m : Message) (prepared : Option (NstartMap × Pending × Message × Option ℕ))
      → IsReady m prepared
      → NoPanic (IsReturned m) (send_prepared network max_retransmit n_start e prepared m).2
  send_prepared-IsReturned e m none h = tt
  send_prepared-IsReturned e m (some (ns, p, m', entry)) (h, he) =
      send_marshalled e ns p m m' entry (marshal_binary m') refl (marshal_binary-NoPanic m' h) he

  -- A message that can be written is sent without a panic where no write panics, whatever else the
  -- network does and whatever is stored; if it is confirmable and the send does not fail, there is a response.
  pub send-IsReturned :
      (e : Endpoint W) (m : Message)
      → IsSendable m
      → NoPanic (IsReturned m) (send network max_retransmit n_start e m).2
  unfolding send
  send-IsReturned e m h =
      send_prepared-IsReturned e m
        (prepare n_start (network.random_token e.world) e.nstart e.pending m)
        (prepare-IsReady n_start (network.random_token e.world) e.nstart e.pending m h)
