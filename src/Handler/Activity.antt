-- ===== src/Handler/Activity.antt =====
-- handler.go, listen_dtls.go and coap.go: what handleMessage does to the server besides its tables,
-- which is to note the time and to close the DTLS peer of a message that came another way.
-- The sessions are of a third-party package: `P` is its socket, which is changed in place.
use coap.Observe.{Links}
use coap.Base.{
  ℕ, Bool, true, false, List, Option, none, some, if◌then◌else◌, Result, ok, err, panic, stuck,
  ◌>>=◌, ◌≡◌, ◌≢◌, refl, not, bytes_eq, Bool-cases, inl, inr, ap, ◌∙◌,
}
use coap.Options.{Bytes, Value}
use coap.Message.{Message}
use coap.Dispatch.{Callbacks, Tables}
use coap.Transfer.{Config}
use coap.Handler.{Server, handle_message}

pub record DtlsListener (P : Type 0) : Type 0 where
  pub name : Bytes
  pub socket : P

pub record Host (P C O : Type 0) : Type 0 where
  pub server : Server C O
  pub last_activity : ℕ
  pub dtls_listener : Option (DtlsListener P)

module _ {P Q : Type 0} (socket_find : P → Bytes → Option Q) where
  -- `FindPeer`
  unfoldable pub find_peer : Option (DtlsListener P) → Bytes → Option Q
  find_peer none addr = none
  find_peer (some l) addr = socket_find l.socket addr

module _ {P : Type 0} (socket_remove : P → Bytes → P) where
  -- `ClosePeer`
  unfoldable pub close_peer : Option (DtlsListener P) → Bytes → Option (DtlsListener P)
  close_peer none addr = none
  close_peer (some l) addr = some (record l { socket = socket_remove l.socket addr })

  -- A message came from another listener than that of DTLS.
  unfoldable pub is_foreign : Option (DtlsListener P) → Message → Bool
  is_foreign none req = false
  is_foreign (some l) req = not (bytes_eq req.meta.listener_name l.name)

  -- The DTLS peer of a message that another listener read is closed.
  unfoldable pub close_other : Option (DtlsListener P) → Message → Option (DtlsListener P)
  unfolding close_peer is_foreign
  close_other l req = if is_foreign l req then close_peer l req.meta.remote_addr else l

module _ {P C O : Type 0} (socket_remove : P → Bytes → P)
    (to_string_array : List Value → List Bytes) (callbacks : Callbacks C O) (cfg : Config) where
  abbrev behind : Host P C O → Server C O × Option Message → Host P C O × Option Message
  behind h (s, rsp) = (record h { server = s }, rsp)

  -- `handleMessage` from its first line. The time is that of the clock.
  unfoldable pub handle_at_host :
      Links (Tables C O) → Host P C O → Message → Result (Host P C O × Option Message)
  unfolding close_other
  handle_at_host links h req =
      let noted = record h {
        last_activity = cfg.clock.now;
        dtls_listener = close_other socket_remove h.dtls_listener req;
      } in
      handle_message to_string_array callbacks cfg links noted.server req >>= λ r.
      ok (behind noted r)

  handled_host :
      (m : Result (Server C O × Option Message)) (noted : Host P C O) {h' : Host P C O}
      {rsp : Option Message}
      → (m >>= λ r. ok (behind noted r)) ≡ ok (h', rsp)
      → (s : Server C O) × (h' ≡ record noted { server = s })
  handled_host (ok (s, r)) noted e = (s, cc)
  handled_host (err x) noted e = cc
  handled_host panic noted e = cc
  handled_host stuck noted e = cc

module _ {P Q : Type 0} (socket_find : P → Bytes → Option Q) (socket_remove : P → Bytes → P) where
  -- What the third-party sessions do: a peer that is removed is not found, and the others stay.
  pub record Sessions : Type 0 where
    pub removed : (p : P) (addr : Bytes) → socket_find (socket_remove p addr) addr ≡ none
    pub others :
        (p : P) (addr other : Bytes)
        → other ≢ addr
        → socket_find (socket_remove p addr) other ≡ socket_find p other

  close_other-removed :
      (l : Option (DtlsListener P)) (req : Message)
      → Sessions
      → is_foreign socket_remove l req ≡ true
      → find_peer socket_find (close_other socket_remove l req) req.meta.remote_addr ≡ none
  unfolding close_other close_peer find_peer
  close_other-removed none req laws foreign = refl
  close_other-removed (some l) req laws foreign =
      rw foreign (laws.removed l.socket req.meta.remote_addr)

  close_other-others :
      (l : Option (DtlsListener P)) (req : Message) (other : Bytes)
      → Sessions
      → other ≢ req.meta.remote_addr
      → find_peer socket_find (close_other socket_remove l req) other
        ≡ find_peer socket_find l other
  unfolding close_other close_peer find_peer is_foreign
  close_other-others none req other laws different = refl
  close_other-others (some l) req other laws different =
      elim (Bool-cases (bytes_eq req.meta.listener_name l.name)) [
        | inl e ↦ rw e refl
        | inr e ↦ rw e (laws.others l.socket req.meta.remote_addr other different)
      ]

  -- A message that another listener than that of DTLS read, once it is handled: the server has noted
  -- the time, the DTLS peer of the sender's address is gone, and that of any other address is as it
  -- was, whatever the handling did besides. The sessions must remove and find peers by their address.
  pub handle_at_host-peers :
      {C O : Type 0} (to_string_array : List Value → List Bytes) (callbacks : Callbacks C O)
      (cfg : Config) (links : Links (Tables C O)) (h : Host P C O) (req : Message) (other : Bytes)
      {h' : Host P C O} {rsp : Option Message}
      → Sessions
      → is_foreign socket_remove h.dtls_listener req ≡ true
      → other ≢ req.meta.remote_addr
      → handle_at_host socket_remove to_string_array callbacks cfg links h req ≡ ok (h', rsp)
      → (h'.last_activity ≡ cfg.clock.now)
        × (find_peer socket_find h'.dtls_listener req.meta.remote_addr ≡ none)
        × (find_peer socket_find h'.dtls_listener other
            ≡ find_peer socket_find h.dtls_listener other)
  unfolding handle_at_host
  handle_at_host-peers {C = C} {O = O} to_string_array callbacks cfg links h req other laws foreign
        different e =
      let noted = record h {
        last_activity = cfg.clock.now;
        dtls_listener = close_other socket_remove h.dtls_listener req;
      } in
      let (s, eq) =
        handled_host socket_remove to_string_array callbacks cfg
          (handle_message to_string_array callbacks cfg links h.server req) noted e in
      (
        ap (λ (x : Host P C O). x.last_activity) eq,
        ap (λ (x : Host P C O). find_peer socket_find x.dtls_listener req.meta.remote_addr) eq
            ∙ close_other-removed h.dtls_listener req laws foreign,
        ap (λ (x : Host P C O). find_peer socket_find x.dtls_listener other) eq
            ∙ close_other-others h.dtls_listener req other laws different,
      )
