-- ===== src/Sniffer.antt =====
-- sniffer.go: which callback gets a packet. `K` is the type of callbacks and `D` what the third-party
-- DTLS package keeps; `dtls_set` is its own SetSniffPacketsCallback, which is not in the repository.
use coap.Base.{Option, none, some, ◌≡◌, refl}
use coap.Options.{Bytes}
use coap.Names.{codes}

abbrev pub sniff_write : Bytes
sniff_write = codes "write"

abbrev pub sniff_read : Bytes
sniff_read = codes "read"

-- What a `SniffPacketsCallback` is called with.
pub record Packet : Type 0 where
  pub transport_type : Bytes
  pub op : Bytes
  pub from : Bytes
  pub to : Bytes
  pub raw : Bytes

pub record Sniffers (K D : Type 0) : Type 0 where
  pub callback : Option K
  pub dtls : D

-- The callback that the DTLS package gets, which tells the transport.
abbrev pub over_dtls : {K : Type 0} → K → Bytes → Bytes → Bytes → Bytes → K × Packet
over_dtls k op from to raw =
    (k, record { transport_type = codes "dtls"; op = op; from = from; to = to; raw = raw })

module _ {K D : Type 0} where
  unfoldable pub set_sniff_packets_callback :
      ((Bytes → Bytes → Bytes → Bytes → K × Packet) → D → D) → K → Sniffers K D → Sniffers K D
  set_sniff_packets_callback dtls_set k s = record {
    callback = some k;
    dtls = dtls_set (over_dtls k) s.dtls;
  }

  -- `sniffActivity`: the call that it starts, if there is a callback.
  unfoldable pub sniff_activity : Sniffers K D → Packet → Option (K × Packet)
  sniff_activity s p = elim s.callback [ none ↦ none | some k ↦ some (k, p) ]

-- The packets of one callback, whether the DTLS package or a listener of this one hands them on.
sniff_activity-set :
    {K D : Type 0} (dtls_set : (Bytes → Bytes → Bytes → Bytes → K × Packet) → D → D) (k : K)
    (s : Sniffers K D) (op from to raw : Bytes)
    → sniff_activity
        (set_sniff_packets_callback dtls_set k s)
        (record { transport_type = codes "dtls"; op = op; from = from; to = to; raw = raw })
      ≡ some (over_dtls k op from to raw)
unfolding sniff_activity set_sniff_packets_callback
sniff_activity-set dtls_set k s op from to raw = refl
