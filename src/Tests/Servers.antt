-- ===== src/Tests/Servers.antt =====
-- A server from its start to its end at concrete input.
use coap.Base.{
  ℕ, ◌≡◌, refl, true, List, [], ◌∷◌, Option, none, some, Error, Result, ok, err, ◌⊎◌, if◌then◌else◌,
  bytes_eq, length,
}
use coap.Base.Int.{pos, negsuc}
use coap.Settings.{Settings}
use coap.Options.{Bytes}
use coap.Names.{codes}
use coap.Message.{Message, new_message, no_meta}
use coap.Handler.Activity.{DtlsListener, find_peer, close_peer, is_foreign, close_other}
use coap.Listen.Opening.{Running, launched, listen_on, get_ports, new_server, close_server}
use coap.Listen.Opening.Lifecycle.{new_server_cases, IsRunning, IsStopped, has_address}

-- The system opens any address as socket 7.
abbrev open_any : Bytes → Result ℕ
open_any addr = ok 7

abbrev address : Bytes
address = codes ":5683"

abbrev some_settings : Settings ℕ ℕ ℕ
some_settings = record {
  deduplicate_expiration = pos 0;
  deduplicate_interval = negsuc 4;
  observe_not_found_callback = none;
  block_default_size = pos 64;
  block_inactivity_timeout = pos 7;
  max_message_default_size = pos 1152;
  n_start = pos 0;
  name = [];
  ref = none;
  proxy_callbacks = [];
}

new_server_cases_example :
    ((e : Error) × (has_address address ≡ true)
      × (open_any address ≡ err e)
      × (new_server {N = ℕ} {P = ℕ} {R = ℕ} {D = ℕ} {C = ℕ} {O = ℕ} open_any
            (some some_settings)
            address
            (some 3)
            []
            40000
          ≡ err e))
    ⊎ ((s : Running ℕ ℕ ℕ ℕ ℕ ℕ ℕ) × (new_server open_any
            (some some_settings)
            address
            (some 3)
            []
            40000
          ≡ ok s)
        × IsRunning address (some 3) s
        × IsStopped address (some 3) (close_server s))
new_server_cases_example =
    new_server_cases ℕ open_any (some some_settings) address (some 3) [] 40000 tt

-- The sessions of a socket are the addresses of its peers.
abbrev has_peer : List Bytes → Bytes → Option Bytes
has_peer [] addr = none
has_peer (a ∷ peers) addr = if bytes_eq a addr then some a else has_peer peers addr

abbrev without : List Bytes → Bytes → List Bytes
without [] addr = []
without (a ∷ peers) addr =
    let rest = without peers addr in if bytes_eq a addr then rest else a ∷ rest

abbrev dtls : Option (DtlsListener (List Bytes))
dtls = some (record { name = codes "dtls"; socket = codes "a" ∷ codes "b" ∷ [] })

abbrev from_a : Bytes → Message
from_a name = record new_message {
  meta = record no_meta { remote_addr = codes "a"; listener_name = name };
}

closed_over_udp :
    find_peer has_peer (close_other without dtls (from_a (codes "udp"))) (codes "a") ≡ none
unfolding find_peer close_other close_peer is_foreign bytes_eq
closed_over_udp = refl

kept_over_dtls : close_other without dtls (from_a (codes "dtls")) ≡ dtls
unfolding close_other is_foreign bytes_eq
kept_over_dtls = refl

-- A server over UDP only, on socket 7, whose number is its port.
abbrev over_udp : Running ℕ ℕ ℕ ℕ ℕ ℕ ℕ
over_udp = launched none (some (listen_on (codes "udp") 7)) none [] 0

ports :
    get_ports (λ s. s ∷ []) (λ s. []) (λ a. a) (λ a. pos (length a)) over_udp ≡ (pos 1, negsuc 0)
unfolding get_ports
ports = refl
