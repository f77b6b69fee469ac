-- ===== src/Listen/Again.antt =====
-- The listeners on bytes: what comes of malformed ones, and of a datagram that comes twice.
use coap.Observe.{Links}
use coap.Base.{
  ◌≡◌, refl, sym, ap, ◌∙◌, ◌≤◌, true, false, List, Option, none, some, Result, ok, err, panic,
  stuck, ◌>>=◌, Error, ◌++◌, ◌∷◌,
}
use coap.Options.{Bytes, Value}
use coap.Message.{Message, new_message}
use coap.Wire.{marshal_binary, unmarshal_binary, write_header, write_fixed, sort_opts}
use coap.Wire.Safety.{IsReceived}
use coap.Dedup.{entry_of}
use coap.Dispatch.{Callbacks, Tables}
use coap.Transfer.{Config}
use coap.Handler.{Server, handle_message, stamp}
use coap.Handler.Once.{handle_message-again}
use coap.Listen.{raw_reply, tagged, answered, exchange, handle, read_dtls, proxy_send, logged}

raw_reply-marshalled :
    (m : Message) (payload : Bytes) (r : Result Bytes)
    → (((r >>= λ buf. ok (m, buf ++ payload))) >>= λ (_, bytes). ok (some bytes))
      ≡ (r >>= λ buf. ok (some (buf ++ payload)))
raw_reply-marshalled m payload (ok buf) = refl
raw_reply-marshalled m payload (err e) = refl
raw_reply-marshalled m payload panic = refl
raw_reply-marshalled m payload stuck = refl

-- The metadata does not go on the wire.
raw_reply-stamp :
    (cfg : Config) (again : Message) (rsp : Option Message)
    → raw_reply (stamp cfg again rsp) ≡ raw_reply rsp
unfolding raw_reply marshal_binary write_header write_fixed sort_opts
raw_reply-stamp cfg again none = refl
raw_reply-stamp cfg again (some rsp) =
    let stamped = record rsp { meta = record again.meta { received_at = cfg.clock.now } } in
    raw_reply-marshalled (sort_opts stamped) rsp.payload (write_header (sort_opts stamped))
    ∙ sym (raw_reply-marshalled (sort_opts rsp) rsp.payload (write_header (sort_opts rsp)))

module _ {C O : Type 0} (to_string_array : List Value → List Bytes) (callbacks : Callbacks C O)
    (cfg : Config) where
  exchange-received :
      (links : Links (Tables C O)) (name addr : Bytes) (s : Server C O) (raw : Bytes) (m : Message)
      {u : Unit {0}}
      → unmarshal_binary new_message raw ≡ (m, ok u)
      → exchange to_string_array callbacks cfg links name addr s raw
        ≡ answered to_string_array callbacks cfg s
            (handle_message to_string_array callbacks cfg links s (tagged cfg name addr m))
  unfolding exchange
  exchange-received links name addr s raw m e = rw e refl

  -- Bytes that `unmarshal_binary` does not take: the server stays as it is, nothing is written by UDP
  -- or DTLS, and `ProxySend` returns the error.
  abbrev pub IsRefused : Links (Tables C O) → Bytes → Bytes → Bytes → Server C O → Bytes → Type 0
  IsRefused links name prefix from s raw =
      (m : Message) × (e : Error) × (unmarshal_binary new_message raw ≡ (m, err e))
      × (handle to_string_array callbacks cfg links name s raw from ≡ (s, ok none))
      × (read_dtls to_string_array callbacks cfg false links name s raw from ≡ (s, ok none))
      × (proxy_send to_string_array callbacks cfg true prefix links s raw from ≡ (s, err e))

  -- Bytes that `unmarshal_binary` takes for a message: it is in the bounds of the format, and handled.
  abbrev pub IsHandled : Links (Tables C O) → Bytes → Bytes → Bytes → Server C O → Bytes → Type 0
  IsHandled links name prefix from s raw =
      (m : Message) × (unmarshal_binary new_message raw ≡ (m, ok tt))
      × IsReceived m
      × (handle to_string_array callbacks cfg links name s raw from
          ≡ logged to_string_array callbacks cfg (
              answered to_string_array callbacks cfg s
                (handle_message to_string_array callbacks cfg links s (tagged cfg name from m))))
      × (read_dtls to_string_array callbacks cfg false links name s raw from
          ≡ handle to_string_array callbacks cfg links name s raw from)
      × (proxy_send to_string_array callbacks cfg true prefix links s raw from
          ≡ answered to_string_array callbacks cfg s (
              handle_message to_string_array callbacks cfg links s
                (tagged cfg prefix (prefix ++ (b':' ∷ from)) m)))

  raw_reply_ok :
      (s s' : Server C O) (r : Result (Server C O × Option Message)) (b : Option Bytes)
      → answered to_string_array callbacks cfg s r ≡ (s', ok b)
      → (rsp : Option Message) × (r ≡ ok (s', rsp)) × (raw_reply rsp ≡ ok b)
  raw_reply_ok s s' (ok (t, rsp)) b e = (
    rsp,
    ap (λ (x : Server C O × Result (Option Bytes)). ok (x.0, rsp)) e,
    ap (λ (x : Server C O × Result (Option Bytes)). x.1) e,
  )
  raw_reply_ok s s' (err x) b e = cc
  raw_reply_ok s s' panic b e = cc
  raw_reply_ok s s' stuck b e = cc

module _ {C O : Type 0} (to_string_array : List Value → List Bytes) (callbacks : Callbacks C O)
    (cfg later : Config) where
  -- A datagram with a confirmable or a non-confirmable message that is new at the server, and that is
  -- answered, or not, without an error: the same datagram from the same address, also with another
  -- clock, leaves the server as it is and is answered with the same bytes.
  pub exchange_again :
      (links links' : Links (Tables C O)) (name addr : Bytes) (s s' : Server C O) (raw : Bytes)
      (m : Message) (reply : Option Bytes) {u : Unit {0}}
      → unmarshal_binary new_message raw ≡ (m, ok u)
      → m.type ≤ 1
      → entry_of s.dedup addr m.message_id ≡ none
      → exchange to_string_array callbacks cfg links name addr s raw ≡ (s', ok reply)
      → exchange to_string_array callbacks later links' name addr s' raw ≡ (s', ok reply)
  exchange_again links links' name addr s s' raw m reply em et fresh e =
      let msg = tagged cfg name addr m in
      let msg' = tagged later name addr m in
      let (rsp, handled, bytes) =
        raw_reply_ok to_string_array callbacks cfg s s'
          (handle_message to_string_array callbacks cfg links s msg) reply
          (sym (exchange-received to_string_array callbacks cfg links name addr s raw m em) ∙ e) in
      let again =
        handle_message-again to_string_array callbacks cfg later links links' s s' msg msg' rsp et
          et refl refl fresh handled in
      exchange-received to_string_array callbacks later links' name addr s' raw m em
      ∙ ap (answered to_string_array callbacks later s') again
      ∙ ap (λ r. (s', r)) (raw_reply-stamp later msg' rsp ∙ bytes)
