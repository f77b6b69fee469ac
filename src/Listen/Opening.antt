-- ===== src/Listen/Opening.antt =====
-- coap.go, listen_udp.go and listen_dtls.go: NewServer, Close and the accessors of a server.
-- The sockets, `S` of the system and `D` of the third-party DTLS package, are parameters, and so are
-- the opening of the one of an address, the addresses of both, and the reading of ports. The time is
-- in nanoseconds. `GetRef` gives nil where there is no `Ref`, as here `none`.
pub mod Lifecycle
use mathlib.Core.Option
use coap.Names.{codes}
use coap.Base.{ℕ, ◌%◌, List, [], ◌∷◌, Option, none, some, Result, ok, ◌>>=◌}
use coap.Base.Int.{ℤ, negsuc}
use coap.Options.{Bytes}
use coap.Route.{leaf}
use coap.Observe.{ObserveMap}
use coap.Handler.{Server}
use coap.Settings.{Settings, server_config}
use coap.Listen.Readers.{Listener, listen, close}

-- `UdpListener` and `DtlsListener`
pub record Port (S : Type 0) : Type 0 where
  pub name : Bytes
  pub socket : S
  pub reader : Listener

-- `Server`
pub record Running (N P R S D C O : Type 0) : Type 0 where
  pub config : Settings N P R
  pub udp_listener : Option (Port S)
  pub dtls_listener : Option (Port D)
  pub state : Server C O

-- The tables of a new server; the observations are those of the program.
unfoldable pub new_state : {C O : Type 0} → ObserveMap O → ℕ → Server C O
new_state observations nanoseconds = record {
  dedup = record { dedup_map = []; dedup_delete_after = [] };
  tables = record {
    block_cache = [];
    pending = record {
      pending_map = [];
      pending_mid_map = [];
      pending_msg_id = nanoseconds % 32767;
      channels = [];
      next_entry = 0;
    };
    observations = observations;
    routes = leaf;
  };
}

-- `DtlsListener.listen`, and `UdpListener.listen` with its socket.
unfoldable pub listen_on : {S : Type 0} → Bytes → S → Port S
listen_on name s = record { name = name; socket = s; reader = listen }

unfoldable pub close_port : {S : Type 0} → Port S → Port S
close_port p = record p { reader = close p.reader }

module _ {S : Type 0} (open_udp : Bytes → Result S) where
  -- No listener is opened for an empty address.
  unfoldable pub udp_port : Bytes → Result (Option (Port S))
  unfolding listen_on
  udp_port [] = ok none
  udp_port (b ∷ addr) = open_udp (b ∷ addr) >>= λ s. ok (some (listen_on (codes "udp") s))

module _ {N P R S D C O : Type 0} where
  -- The server behind the opening of its address.
  abbrev pub launched :
      Option (Settings N P R)
      → Option (Port S)
      → Option D
      → ObserveMap O
      → ℕ
      → Running N P R S D C O
  launched conf port dtls observations nanoseconds = record {
    config = server_config conf;
    udp_listener = port;
    dtls_listener = Option.map (listen_on (codes "dtls")) dtls;
    state = new_state observations nanoseconds;
  }

  -- `NewServer`
  unfoldable pub new_server :
      (Bytes → Result S)
      → Option (Settings N P R)
      → Bytes
      → Option D
      → ObserveMap O
      → ℕ
      → Result (Running N P R S D C O)
  unfolding udp_port
  new_server open_udp conf udp_addr dtls observations nanoseconds =
      udp_port open_udp udp_addr >>= λ port. ok (launched conf port dtls observations nanoseconds)

  -- `Server.Close`
  unfoldable pub close_server : Running N P R S D C O → Running N P R S D C O
  unfolding close_port
  close_server s = record s {
    udp_listener = Option.map close_port s.udp_listener;
    dtls_listener = Option.map close_port s.dtls_listener;
  }

  unfoldable pub get_ref : Running N P R S D C O → Option R
  get_ref s = s.config.ref

  unfoldable pub get_config : Running N P R S D C O → Settings N P R
  get_config s = s.config

-- The port of a listener's address, and -1 without a listener.
unfoldable pub port_number :
    {S : Type 0} → (S → Bytes) → (Bytes → Bytes) → (Bytes → ℤ) → Option (Port S) → ℤ
port_number local_addr port_of to_int none = negsuc 0
port_number local_addr port_of to_int (some p) = to_int (port_of (local_addr p.socket))

unfoldable pub get_ports :
    {N P R S D C O : Type 0}
    → (S → Bytes)
    → (D → Bytes)
    → (Bytes → Bytes)
    → (Bytes → ℤ)
    → Running N P R S D C O
    → ℤ × ℤ
unfolding port_number
get_ports udp_addr dtls_addr port_of to_int s = (
  port_number udp_addr port_of to_int s.udp_listener,
  port_number dtls_addr port_of to_int s.dtls_listener,
)
