-- ===== src/Listen.antt =====
-- listen_udp.go, listen_dtls.go and listen_proxy.go: a datagram goes to the server as a message, and
-- the reply goes back as bytes; and where send.go and listen_proxy.go take the bytes for an address.
-- The sockets are not modelled: a reader's step takes the bytes that were read, and gives those to
-- write. The response of the table of message ids is the one that is sorted in place when its bytes
-- are written; its sort is stable, and is done again before each write.
pub mod Again
pub mod Proxy
pub mod Writing
pub mod Readers
pub mod Opening
pub mod Calm
use coap.Observe.{Links}
use coap.Base.{
  ℕ, ◌+◌, Bool, true, false, ◌&&◌, ◌||◌, not, List, [], ◌∷◌, ◌++◌, Option, none, some, ◌==◌,
  if◌then◌else◌, ltb, leb, length, take, drop, Result, ok, err, panic, stuck, ◌>>=◌, or_panic,
  port_shutdown, callback_not_found, no_valid_listener,
}
use coap.Base.Maps.{load, store, string_key}
use coap.Options.{Bytes, Value}
use coap.Message.{Message, new_message}
use coap.Wire.{marshal_binary, unmarshal_binary}
use coap.Dispatch.{Callbacks, Tables}
use coap.Transfer.{Config}
use coap.Send.Address.{extract_proxy_name}
use coap.Handler.{Server, handle_message}

-- The bytes of a reply; none is written where there is no reply.
unfoldable pub raw_reply : Option Message → Result (Option Bytes)
raw_reply none = ok none
raw_reply (some rsp) = marshal_binary rsp >>= λ (_, bytes). ok (some bytes)

-- A message as a listener hands it on.
abbrev pub tagged : Config → Bytes → Bytes → Message → Message
tagged cfg name addr m = record m {
  meta = record m.meta { remote_addr = addr; listener_name = name; received_at = cfg.clock.now };
}

module _ {C O : Type 0} (to_string_array : List Value → List Bytes) (callbacks : Callbacks C O)
    (cfg : Config) where
  abbrev pub answered :
      Server C O → Result (Server C O × Option Message) → Server C O × Result (Option Bytes)
  answered s (ok (s', rsp)) = (s', raw_reply rsp)
  answered s (err e) = (s, err e)
  answered s panic = (s, panic)
  answered s stuck = (s, stuck)

  -- The message is handled, unless its bytes were malformed.
  abbrev pub pass_on :
      Links (Tables C O)
      → Bytes
      → Bytes
      → Server C O
      → Message × Result (Unit {0})
      → Server C O × Result (Option Bytes)
  pass_on links name addr s (m, ok _) =
      answered s (handle_message to_string_array callbacks cfg links s (tagged cfg name addr m))
  pass_on links name addr s (m, err e) = (s, err e)
  pass_on links name addr s (m, panic) = (s, panic)
  pass_on links name addr s (m, stuck) = (s, stuck)

  -- What the three listeners do with the bytes that they got from an address.
  unfoldable pub exchange :
      Links (Tables C O) → Bytes → Bytes → Server C O → Bytes → Server C O × Result (Option Bytes)
  unfolding raw_reply
  exchange links name addr s raw = pass_on links name addr s (unmarshal_binary new_message raw)

  -- An error is logged, and nothing is written.
  abbrev pub logged : Server C O × Result (Option Bytes) → Server C O × Result (Option Bytes)
  logged (s, err e) = (s, ok none)
  logged (s, ok r) = (s, ok r)
  logged (s, panic) = (s, panic)
  logged (s, stuck) = (s, stuck)

  -- `UdpListener.handle`
  unfoldable pub handle :
      Links (Tables C O) → Bytes → Server C O → Bytes → Bytes → Server C O × Result (Option Bytes)
  unfolding exchange
  handle links name s raw from = logged (exchange links name from s raw)

  -- A round of `UdpListener.reader`: the buffer holds 8192 bytes of the datagram.
  unfoldable pub read_udp :
      Links (Tables C O) → Bytes → Server C O → Bytes → Bytes → Server C O × Result (Option Bytes)
  unfolding handle
  read_udp links name s datagram from = handle links name s (take 8192 datagram) from

  -- A call of `DtlsListener.reader`, behind its read from the peer.
  unfoldable pub read_dtls :
      Bool
      → Links (Tables C O)
      → Bytes
      → Server C O
      → Bytes
      → Bytes
      → Server C O × Result (Option Bytes)
  unfolding exchange
  read_dtls shutdown links name s raw from =
      if shutdown then (s, ok none) else logged (exchange links name from s raw)

  -- A server without a UDP listener: the sniffer's arguments are behind a nil pointer.
  abbrev without_udp : Server C O → Message × Result (Unit {0}) → Server C O × Result (Option Bytes)
  without_udp s (m, ok _) = (s, panic)
  without_udp s (m, err e) = (s, err e)
  without_udp s (m, panic) = (s, panic)
  without_udp s (m, stuck) = (s, stuck)

  -- `ProxySend`
  unfoldable pub proxy_send :
      Bool
      → Bytes
      → Links (Tables C O)
      → Server C O
      → Bytes
      → Bytes
      → Server C O × Result (Option Bytes)
  unfolding exchange
  proxy_send has_udp prefix links s raw from =
      if has_udp
      then exchange links prefix (prefix ++ (b':' ∷ from)) s raw
      else without_udp s (unmarshal_binary new_message raw)

-- `addr[len(prefix)+1:]` of `proxyRecv`; `none` is the panic of the slice behind the end.
unfoldable pub proxy_target : Bytes → Bytes → Option Bytes
proxy_target prefix addr =
    if leb (length prefix + 1) (length addr) then some (drop (length prefix + 1) addr) else none

-- `UdpListener.Send`: an address that does not resolve, or what the socket says.
unfoldable pub udp_send {ℓ} :
    {A : Type ℓ}
    → (Bytes → Result A)
    → (A → Bytes → Result (Unit {0}))
    → Bool
    → Bytes
    → Bytes
    → Result (Unit {0})
udp_send resolve write shutdown addr raw =
    if shutdown then err port_shutdown else resolve addr >>= λ a. write a raw

-- What the server writes with: its listeners, and the callbacks of the proxies.
pub record Writers : Type 0 where
  pub find_peer : Bytes → Option (Bytes → Result (Unit {0}))
  pub udp : Option (Bytes → Bytes → Result (Unit {0}))
  pub proxy_callbacks : List (Bytes × (Bytes → Bytes → Result (Unit {0})))

-- `AddProxyReceiver`
unfoldable pub add_proxy_receiver : Writers → Bytes → (Bytes → Bytes → Result (Unit {0})) → Writers
add_proxy_receiver w prefix f = record w { proxy_callbacks = store prefix f w.proxy_callbacks }

-- `proxyRecv`, which also has the sniffer's arguments behind the UDP listener.
unfoldable pub proxy_recv : Writers → Bytes → Bytes → Bytes → Result (Unit {0})
unfolding proxy_target
proxy_recv w prefix addr raw = elim w.udp [
  | none ↦ panic
  | some _ ↦ elim (load prefix w.proxy_callbacks) [
    | none ↦ err callback_not_found
    | some f ↦ or_panic (proxy_target prefix addr) >>= λ to. f raw to
  ]
]

-- The write of `send`: by a proxy, to a DTLS peer, or by the UDP listener.
unfoldable pub write_to : Writers → Bytes → Bytes → Result (Unit {0})
unfolding proxy_recv extract_proxy_name
write_to w addr raw = elim (extract_proxy_name addr) [
  | c ∷ name ↦ proxy_recv w (c ∷ name) addr raw
  | [] ↦ elim (w.find_peer addr) [
    | some peer ↦ peer raw
    | none ↦ elim w.udp [ some udp ↦ udp addr raw | none ↦ err no_valid_listener ]
  ]
]
