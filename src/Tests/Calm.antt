-- ===== src/Tests/Calm.antt =====
-- A server at concrete datagrams, with the sends of its handler.
use coap.Tests.Listening.{server, get_bytes, cfg, no_strings}
use coap.Listen.Readers.{next}
use coap.Observe.{Links}
use coap.Send.{Endpoint, Network, received, elapsed, send}
use coap.Listen.{Writers, write_to}
use coap.Base.Maps.{string_key}
use coap.Base.Int.{pos}
use coap.Dispatch.{Tables}
use coap.Listen.Calm.{next}
use coap.Base.{ok, Result, none, ℕ, [], ◌∷◌, Option, none, some, true}
use coap.Base.Maps.{string_key, number_key}
use coap.Options.{Bytes}
use coap.Message.{make_reply, Message, new_message}
use coap.Dispatch.{Callbacks}
use coap.Handler.{Server}
use coap.Listen.{exchange}

abbrev accept_all : Bytes → Bytes → Result (Unit {0})
accept_all to raw = ok tt

-- A UDP listener and nothing else.
abbrev writers : Writers
writers = record { find_peer = λ addr. none; udp = some accept_all; proxy_callbacks = [] }

-- Every message that is written, and then written again, is answered with an empty one.
abbrev network : Network (Tables ℕ ℕ)
network = record {
  random_token = λ t. 1 ∷ [];
  dtls_name = λ t addr. none;
  udp_name = λ t. some (b'u' ∷ []);
  written = λ e m.
      let w = write_to writers m.meta.remote_addr (1 ∷ []) in
      (e, w, elapsed w ∷ received new_message ∷ []);
}

abbrev endpoint : Tables ℕ ℕ → Endpoint (Tables ℕ ℕ)
endpoint t = record { nstart = []; pending = t.pending; world = t }

-- A handler's sends over that network.
abbrev links : Links (Tables ℕ ℕ)
links = record {
  rounds = 1;
  send_to = λ addr t m.
      let sent = record m { meta = record m.meta { remote_addr = addr } } in
      let (e, m', r) = send network (pos 4) (pos 1) (endpoint t) sent in
      (record t { pending = e.pending }, m', r);
}

abbrev reply_content : ℕ → Message → Option Message
reply_content c req = some (make_reply req 69 (1 ∷ []))

abbrev replying : Callbacks ℕ ℕ
replying = record { call = reply_content; notify = λ o m. true; not_found = none }

-- A confirmable response with the first block of several.
abbrev block_bytes : Bytes
block_bytes = 0x41 ∷ 69 ∷ 0 ∷ 8 ∷ 1 ∷ 0xd1 ∷ 10 ∷ 0x0e ∷ 0xff ∷ 1 ∷ []

abbrev after_get : Server ℕ ℕ
after_get = (exchange no_strings replying cfg links (b'u' ∷ []) (b'h' ∷ []) server get_bytes).0
