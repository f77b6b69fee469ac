-- ===== src/Send/Await.antt =====
-- The retransmission loop of send.go: how often it writes, and what it returns.
use mathlib.Core.List.{Mem, mem-cons_self, mem-cons_of_mem}
use coap.Base.{
  ℕ, zero, suc, ◌≤◌, ◌≡◌, ◌≢◌, Bool, true, false, List, [], ◌∷◌, ◌++◌, ltb, length, arith, Result,
  ok, err, panic, stuck, timeout, Bool-cases, inl, inr, replicate, IsSafe, All,
}
use coap.Message.{Message}
use coap.Send.{Event, received, elapsed, await, is_delayed}

-- However the network and the clock behave, a message is written again at most as often as
-- `MaxRetransmit` says.
pub await-le :
    (request : Bool) (max_retransmit : ℕ) (events : List Event)
    → (await request (suc max_retransmit) events).1 ≤ max_retransmit
unfolding await
await-le request zero [] = omega arith
await-le request zero (received rsp ∷ events) = ground arith
await-le request zero (elapsed w ∷ events) = ground arith
await-le request (suc n) [] = omega arith
await-le request (suc n) (received rsp ∷ events) = ground (arith, await-le request n events)
await-le request (suc n) (elapsed (ok u) ∷ events) = ground (arith, await-le request n events)
await-le request (suc n) (elapsed (err e) ∷ events) = ground (arith, await-le request n events)
await-le request (suc n) (elapsed panic ∷ events) = ground (arith, await-le request n events)
await-le request (suc n) (elapsed stuck ∷ events) = ground (arith, await-le request n events)

-- An answer is a message that came and is not the empty acknowledgement of a request.
abbrev pub IsAnswer : Bool → List Event → Message → Type 0
IsAnswer request events m = Mem (received m) events × (is_delayed request m ≡ false)

IsAnswer-cons :
    (request : Bool) (e : Event) (events : List Event) (r : Result Message)
    → IsSafe (IsAnswer request events) r
    → IsSafe (IsAnswer request (e ∷ events)) r
IsAnswer-cons request e events (ok m) (h, k) = (mem-cons_of_mem e h, k)
IsAnswer-cons request e events (err x) h = tt
IsAnswer-cons request e events panic h = h
IsAnswer-cons request e events stuck h = h

-- The write of a retransmission returns nil or an error.
abbrev pub IsWritten : Event → Type 0
IsWritten (received rsp) = Unit {0}
IsWritten (elapsed written) = IsSafe (λ (_ : Unit {0}). Unit {0}) written

-- The loop ends within as many events as it has rounds, without a panic where the writes do not panic,
-- and a message that it returns is one that came and is not the empty acknowledgement of a request.
pub await-IsSafe :
    (request : Bool) (rounds : ℕ) (events : List Event)
    → All IsWritten events
    → rounds ≤ length events
    → IsSafe (IsAnswer request events) (await request rounds events).0
unfolding await
await-IsSafe request zero events hs h = tt
await-IsSafe request (suc n) [] hs h = absurd (omega arith)
await-IsSafe request (suc n) (e ∷ events) (hw, hs) h =
    let rest =
      IsAnswer-cons request e events (await request n events).0
        (await-IsSafe request n events hs (omega arith)) in
    await_event e rest hw
  where
    await_event :
        (e : Event)
        → IsSafe (IsAnswer request (e ∷ events)) (await request n events).0
        → IsWritten e
        → IsSafe (IsAnswer request (e ∷ events)) (await request (suc n) (e ∷ events)).0
    await_event (received rsp) rest hw = elim (Bool-cases (is_delayed request rsp)) [
      | inl e ↦ rw e rest
      | inr e ↦ rw e (mem-cons_self, e)
    ]
    await_event (elapsed (ok u)) rest hw = elim (Bool-cases (ltb 0 n)) [
      | inl e ↦ rw e rest
      | inr e ↦ rw e rest
    ]
    await_event (elapsed (err x)) rest hw = elim (Bool-cases (ltb 0 n)) [
      | inl e ↦ rw e tt
      | inr e ↦ rw e rest
    ]
    await_event (elapsed panic) rest hw = absurd hw
    await_event (elapsed stuck) rest hw = absurd hw

-- An answer that comes after `k` timers, with as many retransmissions allowed at least and all of
-- them written, is returned, and the message was written again `k` times.
pub await-delivered :
    (request : Bool) (k max_retransmit : ℕ) (rsp : Message) (events : List Event)
    → k ≤ max_retransmit
    → is_delayed request rsp ≡ false
    → await request (suc max_retransmit) (replicate k (elapsed (ok tt)) ++ (received rsp ∷ events))
      ≡ (ok rsp, k)
unfolding await
await-delivered request zero n rsp events le h = rw h
await-delivered request (suc k) zero rsp events le h = absurd (omega arith)
await-delivered request (suc k) (suc n) rsp events le h =
    rw (await-delivered request k n rsp events (omega arith) h) (ground arith)

-- A request with at least two retransmissions, that is acknowledged by an empty acknowledgement at
-- first, is written again at the next timer all the same, and the response behind that is
-- returned.
await-retransmits_acknowledged :
    (n : ℕ) (ack rsp : Message) (events : List Event)
    → ack.code ≡ 0
    → rsp.code ≢ 0
    → await true (suc (suc (suc n))) (received ack ∷ elapsed (ok tt) ∷ received rsp ∷ events)
      ≡ (ok rsp, 1)
unfolding await is_delayed
await-retransmits_acknowledged n ack rsp events ha hr = ground arith

-- When the empty acknowledgement of a request comes after all retransmissions were written, the
-- loop ends with a timeout, whatever comes behind it.
pub await-acknowledged_late :
    (max_retransmit : ℕ) (ack : Message) (events : List Event)
    → ack.code ≡ 0
    → await true
        (suc max_retransmit)
        (replicate max_retransmit (elapsed (ok tt)) ++ (received ack ∷ events))
      ≡ (err timeout, max_retransmit)
unfolding await is_delayed
await-acknowledged_late zero ack events h = ground arith
await-acknowledged_late (suc n) ack events h =
    rw (await-acknowledged_late n ack events h) (ground arith)
