-- ===== src/Send/Limit.antt =====
-- send of send.go and the counter of nstart.go: what a whole call does to its endpoint's counter.
use coap.Base.{
  ℕ, zero, suc, ◌≡◌, refl, true, Option, none, some, arith, Option-cases, inl, inr, ap, ◌∙◌,
}
use coap.Base.Int.{ℤ, pos, negsuc}
use coap.Base.Maps.{load, string_key, load-store_self}
use coap.Options.{Bytes}
use coap.Message.{Message, is_confirmable}
use coap.Nstart.{NstartMap, nstart_inc, nstart_dec, suc_ℤ, pred_ℤ}
use coap.Pending.{Pending}
use coap.Send.{prepare}

-- The count of an endpoint, which is 0 where it has no entry.
abbrev pub count_or_zero : Option ℤ → ℤ
count_or_zero none = pos 0
count_or_zero (some c) = c

pub pred_ℤ-suc_ℤ : (z : ℤ) → pred_ℤ (suc_ℤ z) ≡ z
pred_ℤ-suc_ℤ (pos n) = refl
pred_ℤ-suc_ℤ (negsuc zero) = refl
pred_ℤ-suc_ℤ (negsuc (suc n)) = refl

pub nstart_inc_count :
    (n_start : ℕ) (ns : NstartMap) (addr : Bytes) {ns' : NstartMap}
    → nstart_inc ns addr (pos (suc n_start)) ≡ some ns'
    → load addr ns' ≡ some (suc_ℤ (count_or_zero (load addr ns)))
unfolding nstart_inc
nstart_inc_count n_start ns addr e = elim (Option-cases (load addr ns)) [
  | inl l ↦ ground (arith, load-store_self addr (pos 1) ns)
  | inr (k, l) ↦ ground (arith, load-store_self addr (suc_ℤ k) ns)
]

pub nstart_dec_count :
    (ns : NstartMap) (addr : Bytes) {c : ℤ}
    → load addr ns ≡ some c
    → load addr (nstart_dec ns addr) ≡ some (pred_ℤ c)
unfolding nstart_dec
nstart_dec_count ns addr {c} e = rw e (load-store_self addr (pred_ℤ c) ns)

entered :
    (n_start : ℤ) (fresh : Bytes) (ns : NstartMap) (p : Pending) (msg : Message) {ns' : NstartMap}
    {p' : Pending} {msg' : Message} {pe : Option ℕ}
    → is_confirmable msg ≡ true
    → prepare n_start fresh ns p msg ≡ some (ns', p', msg', pe)
    → nstart_inc ns msg.meta.remote_addr n_start ≡ some ns'
unfolding prepare
entered n_start fresh ns p msg c e =
    elim (Option-cases (nstart_inc ns msg.meta.remote_addr n_start)) [
      | inl l ↦ ground arith
      | inr (k, l) ↦ ground arith
    ]

-- A confirmable message of a sender with a positive limit counts itself up before it is written,
-- and down at its end: then its endpoint's count is what it was, or 0 where there was no entry.
prepare-restores :
    (n_start : ℕ) (fresh : Bytes) (ns : NstartMap) (p : Pending) (msg : Message) {ns' : NstartMap}
    {p' : Pending} {msg' : Message} {pe : Option ℕ}
    → is_confirmable msg ≡ true
    → prepare (pos (suc n_start)) fresh ns p msg ≡ some (ns', p', msg', pe)
    → load msg.meta.remote_addr (nstart_dec ns' msg.meta.remote_addr)
      ≡ some (count_or_zero (load msg.meta.remote_addr ns))
prepare-restores n_start fresh ns p msg c e =
    let addr = msg.meta.remote_addr in
    let counted =
      nstart_inc_count n_start ns addr (entered (pos (suc n_start)) fresh ns p msg c e) in
    nstart_dec_count _ addr counted ∙ ap some (pred_ℤ-suc_ℤ (count_or_zero (load addr ns)))
