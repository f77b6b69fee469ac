-- ===== src/Listen/Proxy.antt =====
-- send.go and listen_proxy.go: which addresses are a proxy's, and what the proxy is called with.
use coap.Base.{
  ℕ, ◌+◌, ◌≡◌, refl, ap, ◌∙◌, true, false, [], ◌∷◌, ◌++◌, none, some, if◌then◌else◌, leb, length,
  drop, arith, Result, err, no_valid_listener, sym, length-append, drop-append, drop-drop,
  Bool-cases, inl, inr,
}
use coap.Options.{Bytes}
use coap.Listen.{proxy_target, Writers, write_to, proxy_recv, add_proxy_receiver}
use coap.Send.Address.{split_two, contains, extract_proxy_name, name_before}
use coap.Base.Maps.{string_key, load-store_self}

split_two-append :
    (sep : ℕ) (name rest : Bytes)
    → contains sep name ≡ false
    → split_two sep (name ++ (sep ∷ rest)) ≡ (name, some rest)
unfolding split_two contains
split_two-append sep [] rest h = ground arith
split_two-append sep (c ∷ name) rest h =
    rw (split_two-append sep name rest (ground arith)) (ground arith)

extract_proxy_name-append :
    (host port : Bytes)
    → contains b':' host ≡ false
    → extract_proxy_name (host ++ (b':' ∷ port)) ≡ (if contains b'.' host then [] else host)
unfolding extract_proxy_name
extract_proxy_name-append host port h = ap name_before (split_two-append b':' host port h)

-- An address with a colon, and something before the first one: it is a proxy's where that part has
-- no dot, also if it is a host name or the start of an IPv6 address in brackets. Otherwise it is a
-- DTLS peer's, or goes to the UDP listener if there is one.
pub write_to-address :
    (w : Writers) (c : ℕ) (host port raw : Bytes)
    → contains b':' (c ∷ host) ≡ false
    → let addr = (c ∷ host) ++ (b':' ∷ port) in
      write_to w addr raw ≡ (
        if contains b'.' (c ∷ host)
        then elim (w.find_peer addr) [
          | some peer ↦ peer raw
          | none ↦ elim w.udp [ some udp ↦ udp addr raw | none ↦ err no_valid_listener ]
        ]
        else proxy_recv w (c ∷ host) addr raw)
unfolding write_to
write_to-address w c host port raw h =
    let addr = (c ∷ host) ++ (b':' ∷ port) in
    let named = extract_proxy_name-append (c ∷ host) port h in
    elim (Bool-cases (contains b'.' (c ∷ host))) [
      | inl e ↦
          let direct : extract_proxy_name addr ≡ [] = rw (named, e) refl in
          rw (direct, write_to) (rw e refl)
      | inr e ↦
          let proxied : extract_proxy_name addr ≡ c ∷ host = rw (named, e) refl in
          rw (proxied, write_to) (rw e refl)
    ]

pub proxy_target-append :
    (name from : Bytes) → proxy_target name (name ++ (b':' ∷ from)) ≡ some from
unfolding proxy_target
proxy_target-append name from =
    let long : leb (length name + 1) (length (name ++ (b':' ∷ from))) ≡ true =
      ground (arith, length-append name (b':' ∷ from)) in
    rw long
      (ap some (sym (drop-drop (length name) 1 _) ∙ ap (drop 1) (drop-append name (b':' ∷ from))))

-- The address that `ProxySend` gives a message, with a name of neither a dot nor a colon, at a server
-- with a UDP listener that has a receiver for the name: what is sent to the address goes to that
-- receiver, with the address that the proxy gave.
pub write_to-add_proxy_receiver :
    (w : Writers) (c : ℕ) (name from raw : Bytes) (f : Bytes → Bytes → Result (Unit {0}))
    (udp : Bytes → Bytes → Result (Unit {0}))
    → contains b':' (c ∷ name) ≡ false
    → contains b'.' (c ∷ name) ≡ false
    → w.udp ≡ some udp
    → write_to (add_proxy_receiver w (c ∷ name) f) ((c ∷ name) ++ (b':' ∷ from)) raw ≡ f raw from
unfolding add_proxy_receiver proxy_recv
write_to-add_proxy_receiver w c name from raw f udp h dot eu =
    write_to-address (add_proxy_receiver w (c ∷ name) f) c name from raw h
    ∙ rw dot (
        rw
          (
            eu,
            load-store_self (c ∷ name) f w.proxy_callbacks,
            proxy_target-append (c ∷ name) from,
            proxy_recv,
          )
          refl)
