-- ===== src/Listen/Readers.antt =====
-- listen_udp.go and listen_dtls.go: the goroutines that read, from `listen` to `Close`.
-- A reader either waits in its read, or has left it; only those that wait are counted. What it does
-- with the bytes of a datagram is in Listen.
use coap.Base.{ℕ, ◌+◌, ◌-◌, ◌≤◌, ◌<◌, Bool, true, false, if◌then◌else◌, arith}

pub record Listener : Type 0 where
  pub shutdown : Bool
  pub waiting : ℕ

-- What a read gives: the bytes of a datagram, or an error, as it does once the socket is closed.
pub data Read : Type 0 where
  datagram failed : Read

-- `go l.reader()`
unfoldable pub start_reader : Listener → Listener
start_reader l = record l { waiting = l.waiting + 1 }

-- A reader's return.
unfoldable pub end_reader : Listener → Listener
end_reader l = record l { waiting = l.waiting - 1 }

-- `listen`, behind the opening of the socket.
unfoldable pub listen : Listener
unfolding start_reader
listen = start_reader (record { shutdown = false; waiting = 0 })

-- `Close`: the socket's closing makes the reads fail.
unfoldable pub close : Listener → Listener
close l = record l { shutdown = true }

-- A round of `UdpListener.reader`, behind its read.
unfoldable pub udp_round : Listener → Read → Listener
unfolding start_reader end_reader
udp_round l datagram = l
udp_round l failed = if l.shutdown then end_reader l else end_reader (start_reader l)

-- A call of `DtlsListener.reader`, behind its read, which gives no error.
unfoldable pub dtls_round : Listener → Listener
unfolding start_reader end_reader
dtls_round l = if l.shutdown then end_reader l else end_reader (start_reader l)

-- One thing that happens to a listener: a reader that waits gets something, or the server is closed.
pub data Step : Listener → Listener → Type 0 where
  udp : (l : Listener) (r : Read) → 0 < l.waiting → Step l (udp_round l r)
  dtls : (l : Listener) → 0 < l.waiting → Step l (dtls_round l)
  closed : (l : Listener) → Step l (close l)

pub data Reach : Listener → Type 0 where
  opened : Reach listen
  next : {l m : Listener} → Reach l → Step l m → Reach m

-- One reader waits as long as the listener is open, and at most one behind that.
pub record IsRead (l : Listener) : Type 0 where
  pub at_most_one : l.waiting ≤ 1
  pub open_one : (if l.shutdown then 0 else 1) ≤ l.waiting

Step-IsRead : {l m : Listener} → Step l m → IsRead l → IsRead m
unfolding udp_round dtls_round close
Step-IsRead (udp l datagram w) h = h
Step-IsRead (udp l failed w) h = record {
  at_most_one = ground (arith, h.at_most_one);
  open_one = ground (arith, h.open_one);
}
Step-IsRead (dtls l w) h = record {
  at_most_one = ground (arith, h.at_most_one);
  open_one = ground (arith, h.open_one);
}
Step-IsRead (closed l) h = record { at_most_one = h.at_most_one; open_one = omega arith }

-- However reads end, and whenever the server is closed: a listener that is open always has exactly
-- one reader that waits for the next datagram, and one that is closed has at most one.
pub Reach-IsRead : {l : Listener} → Reach l → IsRead l
unfolding listen
Reach-IsRead opened = record { at_most_one = omega arith; open_one = omega arith }
Reach-IsRead (next r s) = Step-IsRead s (Reach-IsRead r)
