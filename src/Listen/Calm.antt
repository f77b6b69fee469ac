-- ===== src/Listen/Calm.antt =====
-- listen_udp.go and listen_dtls.go with handler.go: panics behind a datagram.
use coap.Base.{ℕ, List, Option, All, IsByte, Result, NoPanic}
use coap.Options.{Bytes, Value}
use coap.Message.{Message}
use coap.Cache.{expire_blocks}
use coap.Base.Maps.{string_key, number_key}
use coap.Dedup.{dedup_watcher}
use coap.Pending.{Pending}
use coap.Route.{Routes}
use coap.Observe.{Links, ObserveMap}
use coap.Listen.Writing.{AreSends}
use coap.Dispatch.{Callbacks, Tables}
use coap.Transfer.{Config}
use coap.Handler.{Server}
use coap.Handler.Calm.{Answers, Keeps}
use coap.Handler.Calm.Whole.{IsCalmServer}
use coap.Listen.{exchange}

-- What an exchange leaves: a server that stores only what can be written, and no panic.
abbrev pub IsCalmExchange : {C O : Type 0} → Server C O × Result (Option Bytes) → Type 0
IsCalmExchange (s, r) = IsCalmServer s × NoPanic (λ _. Unit {0}) r

module _ {C O : Type 0} (to_string_array : List Value → List Bytes) (callbacks : Callbacks C O)
    (answers : Answers callbacks) where
  -- What comes to a server: a datagram, at any time and from anywhere, a round of one of its two
  -- watchers, or calls of the embedding program, that send, observe or add routes.
  pub data Step : Server C O → Server C O → Type 0 where
    exchanged :
        {s : Server C O} (cfg : Config) (links : Links (Tables C O)) (name addr raw : Bytes)
        → AreSends Keeps links
        → All IsByte raw
        → Step s (exchange to_string_array callbacks cfg links name addr s raw).0
    watched : {s : Server C O} (now : ℕ) → Step s (record s { dedup = dedup_watcher now s.dedup })
    expired :
        {s : Server C O} (now : ℕ)
        → Step s (record s {
          tables = record s.tables { block_cache = expire_blocks now s.tables.block_cache };
        })
    called :
        {s : Server C O} (pending : Pending) (observations : ObserveMap O) (routes : Routes C)
        → Step s (record s {
          tables = record s.tables {
            pending = pending;
            observations = observations;
            routes = routes;
          };
        })

  pub data Reach (start : Server C O) : Server C O → Type 0 where
    here : Reach start start
    next : {s s' : Server C O} → Reach start s → Step s s' → Reach start s'
