-- ===== src/Listen/Writing.antt =====
-- send.go and listen_proxy.go: panics of the writes of a server with a UDP listener, and of the sends
-- of a handler over them.
use mathlib.Core.Path.{subst}
use coap.Base.{List, All}
use coap.Base.Int.{ℤ}
use coap.Message.{Message}
use coap.Message.Sendable.{IsSendable}
use coap.Observe.{Links}
use coap.Observe.Calm.{AreCalm}
use coap.Send.{Event, received, elapsed, Endpoint, Network, send}
use coap.Send.Calm.{IsCalmEvent, AreWritten, send-IsReturned}
use coap.Base.{
  ℕ, ◌≡◌, refl, ap, sym, ◌∙◌, true, [], ◌∷◌, ◌++◌, some, ◌==◌, if◌then◌else◌, Result, NoPanic,
  Bool-cases, Option-cases, inl, inr, arith,
}
use coap.Base.Maps.{load, string_key}
use coap.Options.{Bytes}
use coap.Send.Address.{split_two, contains, name_before, extract_proxy_name}
use coap.Listen.{Writers, write_to, proxy_recv, proxy_target}
use coap.Listen.Proxy.{proxy_target-append}

-- A text with the byte is what stands before the first one, the byte, and what stands behind it.
split_two-contains :
    (sep : ℕ) (s : Bytes)
    → contains sep s ≡ true
    → (b : Bytes) × (t : Bytes) × (split_two sep s ≡ (b, some t)) × (s ≡ b ++ (sep ∷ t))
unfolding split_two contains
split_two-contains sep [] h = absurd (ground arith)
split_two-contains sep (c ∷ s) h = elim (Bool-cases (c == sep)) [
  | inl e ↦ ([], s, rw e refl, ground arith)
  | inr e ↦
      let (b, t, hs, es) = split_two-contains sep s (ground arith) in
      (c ∷ b, t, rw (hs, e) refl, ap (λ r. c ∷ r) es)
]

module _ (w : Writers) (addr raw : Bytes) where
  -- A name that is found in an address with a colon is cut off in front of the colon.
  proxy_target-found :
      (c : ℕ) (name : Bytes)
      → contains b':' addr ≡ true
      → extract_proxy_name addr ≡ c ∷ name
      → (to : Bytes) × (proxy_target (c ∷ name) addr ≡ some to)
  unfolding extract_proxy_name
  proxy_target-found c name h e =
      let (b, t, hs, es) = split_two-contains b':' addr h in
      let named : extract_proxy_name addr ≡ (if contains b'.' b then [] else b) =
        ap name_before hs in
      elim (Bool-cases (contains b'.' b)) [
        | inl dot ↦ let none_named : extract_proxy_name addr ≡ [] = rw (named, dot) refl in cc
        | inr dot ↦
            let same : b ≡ c ∷ name = sym (rw (named, dot) refl) ∙ e in
            (
              t,
              ap (λ n. proxy_target n addr) (sym same)
                  ∙ ap (proxy_target b) es
                  ∙ proxy_target-append b t,
            )
      ]

  -- At a server with a UDP listener no write panics, if the listener, the DTLS peers and the callbacks
  -- of the proxies do not, and the address has a colon where it is the one of a proxy.
  pub write_to-NoPanic :
      (udp : Bytes → Bytes → Result (Unit {0}))
      → w.udp ≡ some udp
      → NoPanic (λ _. Unit {0}) (udp addr raw)
      → ((peer : Bytes → Result (Unit {0}))
          → w.find_peer addr ≡ some peer
          → NoPanic (λ _. Unit {0}) (peer raw))
      → ((f : Bytes → Bytes → Result (Unit {0}))
          → load (extract_proxy_name addr) w.proxy_callbacks ≡ some f
          → (contains b':' addr ≡ true) × ((to : Bytes) → NoPanic (λ _. Unit {0}) (f raw to)))
      → NoPanic (λ _. Unit {0}) (write_to w addr raw)
  unfolding write_to proxy_recv
  write_to-NoPanic udp eu hu peers proxies = by_name (extract_proxy_name addr) refl
    where
      by_name :
          (name : Bytes)
          → extract_proxy_name addr ≡ name
          → NoPanic (λ _. Unit {0}) (write_to w addr raw)
      by_name [] e = elim (Option-cases (w.find_peer addr)) [
        | inl p ↦ rw (e, write_to) (rw (p, write_to) (rw (eu, write_to) hu))
        | inr (peer, p) ↦ rw (e, write_to) (rw (p, write_to) (peers peer p))
      ]
      by_name (c ∷ name) e = elim (Option-cases (load (c ∷ name) w.proxy_callbacks)) [
        | inl l ↦ rw (e, write_to) (rw (eu, write_to) (rw (l, proxy_recv) tt))
        | inr (f, l) ↦
            let (colon, calm) = proxies f (ap (λ n. load n w.proxy_callbacks) e ∙ l) in
            let (to, cut) = proxy_target-found c name colon e in
            rw (e, write_to) (rw (eu, write_to) (rw (l, proxy_recv) (rw cut (calm to))))
      ]

-- What comes of a write is what `write_to` gives for some bytes to the address.
abbrev pub IsWrite : Writers → Bytes → Result (Unit {0}) → Type 0
IsWrite w addr r = (raw : Bytes) × (r ≡ write_to w addr raw)

abbrev pub IsRetransmission : Writers → Bytes → Event → Type 0
IsRetransmission w addr (received rsp) = Unit {0}
IsRetransmission w addr (elapsed r) = IsWrite w addr r

-- The network writes by the server's listeners and proxies, the first time and again, and these
-- writes do not panic.
pub record AreWrites {W : Type 0} (w : Writers) (network : Network W) : Type 0 where
  pub first_write :
      (e : Endpoint W) (m : Message) → IsWrite w m.meta.remote_addr (network.written e m).1
  pub next_writes :
      (e : Endpoint W) (m : Message)
      → All (IsRetransmission w m.meta.remote_addr) (network.written e m).2
  pub sound : (addr raw : Bytes) → NoPanic (λ _. Unit {0}) (write_to w addr raw)

retransmission-IsCalm :
    (w : Writers) (addr : Bytes) (events : List Event)
    → ((raw : Bytes) → NoPanic (λ _. Unit {0}) (write_to w addr raw))
    → All (IsRetransmission w addr) events
    → All IsCalmEvent events
retransmission-IsCalm w addr [] sound h = tt
retransmission-IsCalm w addr (received rsp ∷ events) sound (h, hs) =
    (tt, retransmission-IsCalm w addr events sound hs)
retransmission-IsCalm w addr (elapsed r ∷ events) sound ((raw, e), hs) = (
  subst (λ r. NoPanic (λ _. Unit {0}) r) (sym e) (sound raw),
  retransmission-IsCalm w addr events sound hs,
)

AreWrites-AreWritten :
    {W : Type 0} (w : Writers) (network : Network W) → AreWrites w network → AreWritten network
AreWrites-AreWritten w network h e m =
    let (raw, written) = h.first_write e m in
    let addr = m.meta.remote_addr in
    (
      subst (λ r. NoPanic (λ _. Unit {0}) r) (sym written) (h.sound addr raw),
      retransmission-IsCalm w addr (network.written e m).2 (h.sound addr) (h.next_writes e m),
    )

-- The sends of a handler are `send` at some endpoint of its state, under some options, over the
-- writers of the server, and leave the state as it must be.
pub record AreSends {S : Type 0} (Keeps : S → Type 0) (links : Links S) : Type 0 where
  pub network : Network S
  pub writers : Writers
  pub writes : AreWrites writers network
  pub max_retransmit : ℤ
  pub n_start : ℤ
  pub endpoint : Bytes → S → Endpoint S
  pub sends :
      (addr : Bytes) (s : S) (m : Message)
      → (links.send_to addr s m).2
        ≡ (send network max_retransmit n_start
            (endpoint addr s)
            (record m { meta = record m.meta { remote_addr = addr } })).2
  pub kept :
      (addr : Bytes) (s : S) (m : Message)
      → Keeps s
      → IsSendable m
      → Keeps (links.send_to addr s m).0

pub AreSends-AreCalm :
    {S : Type 0} (Keeps : S → Type 0) (links : Links S) → AreSends Keeps links → AreCalm Keeps links
AreSends-AreCalm Keeps links r = record {
  kept = r.kept;
  returned = λ addr s m hs h.
      let sent = record m { meta = record m.meta { remote_addr = addr } } in
      rw (r.sends addr s m) (
        send-IsReturned r.network (AreWrites-AreWritten r.writers r.network r.writes)
          r.max_retransmit r.n_start (r.endpoint addr s) sent h);
}
