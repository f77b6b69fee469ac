-- ===== src/Send/Counted.antt =====
-- send of send.go as a whole: the counter of nstart.go on every path.
use coap.Base.{ℕ, suc, ◌≡◌, refl, ap, ◌∙◌, true, some, Result, ok, err, panic, stuck}
use coap.Base.Int.{ℤ, pos}
use coap.Base.Maps.{load, string_key}
use coap.Options.{Bytes}
use coap.Message.{Message, is_confirmable}
use coap.Nstart.{NstartMap, nstart_inc, suc_ℤ}
use coap.Pending.{Pending, pending_save}
use coap.Wire.{marshal_binary}
use coap.Send.{prepare, Endpoint, Network, leave, send_prepared, send}
use coap.Send.Limit.{count_or_zero, nstart_inc_count, nstart_dec_count, pred_ℤ-suc_ℤ}

pub prepare-confirmable :
    (n_start : ℤ) (fresh : Bytes) (ns ns' : NstartMap) (p : Pending) (msg : Message)
    → is_confirmable msg ≡ true
    → nstart_inc ns msg.meta.remote_addr n_start ≡ some ns'
    → let (p', msg', pe) = pending_save fresh p msg in
      prepare n_start fresh ns p msg ≡ some (ns', p', msg', some pe)
unfolding prepare
prepare-confirmable n_start fresh ns ns' p msg h e = rw h (rw e refl)

module _ {W : Type 0} (network : Network W) (max_retransmit limit : ℤ) where
  -- The counter behind the end of a message that waits at an entry, where it counted one more.
  leave-count :
      (c : ℤ) (entry : ℕ) (msg : Message) (e : Endpoint W)
      → load msg.meta.remote_addr e.nstart ≡ some (suc_ℤ c)
      → load msg.meta.remote_addr (leave network max_retransmit limit (some entry) msg e).nstart
        ≡ some c
  leave-count c entry msg e h =
      nstart_dec_count e.nstart msg.meta.remote_addr h ∙ ap some (pred_ℤ-suc_ℤ c)

  send_prepared-count :
      (e : Endpoint W) (ns : NstartMap) (p : Pending) (msg msg' : Message) (entry : ℕ) (c : ℤ)
      (r : Result (Message × Bytes))
      → marshal_binary msg' ≡ r
      → ((e1 : Endpoint W) (m : Message)
          → load msg'.meta.remote_addr (network.written e1 m).0.nstart
            ≡ load msg'.meta.remote_addr e1.nstart)
      → load msg'.meta.remote_addr ns ≡ some (suc_ℤ c)
      → load msg'.meta.remote_addr
          (send_prepared network max_retransmit limit e
            (some (ns, p, msg', some entry))
            msg).0.nstart
        ≡ some c
  send_prepared-count e ns p msg msg' entry c (ok b) em keeps h =
      let ready = record e { nstart = ns; pending = p } in
      rw (em, send_prepared)
        (leave-count c entry msg' (network.written ready msg').0 (keeps ready msg' ∙ h))
  send_prepared-count e ns p msg msg' entry c (err x) em keeps h =
      rw (em, send_prepared) (leave-count c entry msg' (record e { nstart = ns; pending = p }) h)
  send_prepared-count e ns p msg msg' entry c panic em keeps h =
      rw (em, send_prepared) (leave-count c entry msg' (record e { nstart = ns; pending = p }) h)
  send_prepared-count e ns p msg msg' entry c stuck em keeps h =
      rw (em, send_prepared) (leave-count c entry msg' (record e { nstart = ns; pending = p }) h)

module _ {W : Type 0} (network : Network W) (max_retransmit : ℤ) (n_start : ℕ) where
  abbrev limit : ℤ
  limit = pos (suc n_start)

  -- A confirmable message of a sender with a positive limit that gets its place, while the other
  -- goroutines leave its endpoint's count as it is: however `send` ends, with a response, a timeout,
  -- an error of the listener or a message that cannot be marshalled, the count is afterwards what it
  -- was before, or 0 where there was no entry.
  pub send-restores :
      (e : Endpoint W) (msg : Message) (ns' : NstartMap)
      → is_confirmable msg ≡ true
      → nstart_inc e.nstart msg.meta.remote_addr limit ≡ some ns'
      → ((e1 : Endpoint W) (m : Message)
          → load msg.meta.remote_addr (network.written e1 m).0.nstart
            ≡ load msg.meta.remote_addr e1.nstart)
      → load msg.meta.remote_addr (send network max_retransmit limit e msg).0.nstart
        ≡ some (count_or_zero (load msg.meta.remote_addr e.nstart))
  unfolding send pending_save
  send-restores e msg ns' c en keeps =
      let fresh = network.random_token e.world in
      let (p', msg', entry) = pending_save fresh e.pending msg in
      let ready = prepare-confirmable limit fresh e.nstart ns' e.pending msg c en in
      let counted = nstart_inc_count n_start e.nstart msg.meta.remote_addr en in
      rw ready (
        send_prepared-count network max_retransmit limit e ns' p' msg msg' entry _
          (marshal_binary msg') refl keeps counted)

-- A confirmable message of a sender with the limit 0, while the other goroutines leave its endpoint's
-- count as it is: `send` does not count it up, but its end counts down all the same, so an endpoint
-- with a positive count has one less behind the call than before it.
pub send-uncounted :
    {W : Type 0} (network : Network W) (max_retransmit : ℤ) (e : Endpoint W) (msg : Message) (c : ℕ)
    → is_confirmable msg ≡ true
    → load msg.meta.remote_addr e.nstart ≡ some (pos (suc c))
    → ((e1 : Endpoint W) (m : Message)
        → load msg.meta.remote_addr (network.written e1 m).0.nstart
          ≡ load msg.meta.remote_addr e1.nstart)
    → load msg.meta.remote_addr (send network max_retransmit (pos 0) e msg).0.nstart ≡ some (pos c)
unfolding send pending_save nstart_inc
send-uncounted network max_retransmit e msg c confirmable counted keeps =
    let fresh = network.random_token e.world in
    let (p', msg', entry) = pending_save fresh e.pending msg in
    rw (prepare-confirmable (pos 0) fresh e.nstart e.nstart e.pending msg confirmable refl) (
      send_prepared-count network max_retransmit (pos 0) e e.nstart p' msg msg' entry (pos c)
        (marshal_binary msg') refl keeps counted)
