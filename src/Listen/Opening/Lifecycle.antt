-- ===== src/Listen/Opening/Lifecycle.antt =====
-- coap.go: what a new server is, and what is left of it when it is closed.
use mathlib.Core.Option
use coap.Names.{codes}
use coap.Base.{
  ℕ, ◌<◌, ◌≡◌, refl, Bool, true, false, [], ◌∷◌, Option, none, some, Error, Result, ok, err, ◌⊎◌,
  inl, inr, IsSafe, IsSafe-cases, arith,
}
use coap.Options.{Bytes}
use coap.Observe.{ObserveMap}
use coap.Settings.{Settings, IsUsable, server_config-IsUsable}
use coap.Listen.Readers.{Listener, IsRead, Reach-IsRead, opened, listen, close}
use coap.Listen.Opening.{
  Port, Running, listen_on, close_port, udp_port, new_state, launched, new_server, close_server,
}

-- The port is there exactly if it is asked for, and then it satisfies `P`.
abbrev OnPort : {S : Type 0} → (Listener → Type 0) → Bool → Option (Port S) → Type 0
OnPort P false none = Unit {0}
OnPort P false (some p) = ⊥
OnPort P true none = ⊥
OnPort P true (some p) = P p.reader

abbrev IsOpen : Listener → Type 0
IsOpen l = IsRead l × (l.shutdown ≡ false)

abbrev IsShut : Listener → Type 0
IsShut l = IsRead l × (l.shutdown ≡ true)

listen-IsOpen : IsOpen listen
unfolding listen
listen-IsOpen = (Reach-IsRead opened, refl)

close-IsShut : (l : Listener) → IsRead l → IsShut (close l)
unfolding close
close-IsShut l h = (record { at_most_one = h.at_most_one; open_one = omega arith }, refl)

abbrev is_given : {A : Type 0} → Option A → Bool
is_given none = false
is_given (some a) = true

abbrev pub has_address : Bytes → Bool
has_address [] = false
has_address (b ∷ addr) = true

listened :
    {D : Type 0} (d : Option D)
    → OnPort IsOpen (is_given d) (Option.map (listen_on (codes "dtls")) d)
unfolding listen_on
listened none = tt
listened (some d) = listen-IsOpen

close_port-IsShut :
    {S : Type 0} (asked : Bool) (p : Option (Port S))
    → OnPort IsOpen asked p
    → OnPort IsShut asked (Option.map close_port p)
unfolding close_port
close_port-IsShut false none h = tt
close_port-IsShut true (some p) h = close-IsShut p.reader h.0
close_port-IsShut false (some p) h = h
close_port-IsShut true none h = h

-- Either the address cannot be opened, or there is the port that is asked for.
udp_port_cases :
    {S : Type 0} (open_udp : Bytes → Result S) (addr : Bytes)
    → IsSafe (λ _. Unit {0}) (open_udp addr)
    → ((e : Error) × (has_address addr ≡ true)
        × (open_udp addr ≡ err e)
        × (udp_port open_udp addr ≡ err e))
      ⊎ ((p : Option (Port S)) × (udp_port open_udp addr ≡ ok p)
          × OnPort IsOpen (has_address addr) p)
unfolding udp_port listen_on
udp_port_cases open_udp [] safe = inr (none, refl, tt)
udp_port_cases open_udp (b ∷ addr) safe =
    elim (IsSafe-cases (λ _. Unit {0}) (open_udp (b ∷ addr)) safe) [
      | inl (s, e, u) ↦ inr (some (listen_on (codes "udp") s), rw e refl, listen-IsOpen)
      | inr (x, e) ↦ inl (x, refl, e, rw e refl)
    ]

module _ {N P R S D C O : Type 0} where
  -- A server that takes messages at the address and over the DTLS socket that it was given.
  pub record IsRunning (addr : Bytes) (dtls : Option D) (s : Running N P R S D C O) : Type 0 where
    pub config : IsUsable s.config
    pub next_id : s.state.tables.pending.pending_msg_id < 32767
    pub udp : OnPort IsOpen (has_address addr) s.udp_listener
    pub dtls_port : OnPort IsOpen (is_given dtls) s.dtls_listener

  pub record IsStopped (addr : Bytes) (dtls : Option D) (s : Running N P R S D C O) : Type 0 where
    pub udp : OnPort IsShut (has_address addr) s.udp_listener
    pub dtls_port : OnPort IsShut (is_given dtls) s.dtls_listener

-- `NewServer` gives the error of an address that cannot be opened. Otherwise it gives a server, with
-- usable settings, a first message id below 32767, and a listener with one reader for each of the
-- address, if it is not empty, and the DTLS socket, if there is one. `Close` then shuts each of
-- them. The opening of an address must give a socket or an error.
pub new_server_cases :
    {N P R S D O : Type 0} (C : Type 0) (open_udp : Bytes → Result S)
    (conf : Option (Settings N P R)) (udp_addr : Bytes) (dtls : Option D)
    (observations : ObserveMap O) (nanoseconds : ℕ)
    → IsSafe (λ _. Unit {0}) (open_udp udp_addr)
    → ((e : Error) × (has_address udp_addr ≡ true)
        × (open_udp udp_addr ≡ err e)
        × (new_server {C = C} open_udp conf udp_addr dtls observations nanoseconds ≡ err e))
      ⊎ ((s : Running N P R S D C O) × (new_server open_udp conf udp_addr dtls observations
              nanoseconds
            ≡ ok s)
          × IsRunning udp_addr dtls s
          × IsStopped udp_addr dtls (close_server s))
unfolding new_server new_state close_server
new_server_cases C open_udp conf udp_addr dtls observations nanoseconds safe =
    elim (udp_port_cases open_udp udp_addr safe) [
      | inl (e, given, refused, failed) ↦ inl (e, given, refused, rw failed refl)
      | inr (p, e, h) ↦ inr (
        launched conf p dtls observations nanoseconds,
        rw e refl,
        record {
          config = server_config-IsUsable conf;
          next_id = omega arith;
          udp = h;
          dtls_port = listened dtls;
        },
        record {
          udp = close_port-IsShut (has_address udp_addr) p h;
          dtls_port =
              close_port-IsShut (is_given dtls) (Option.map (listen_on (codes "dtls")) dtls)
                (listened dtls);
        },
      )
    ]
