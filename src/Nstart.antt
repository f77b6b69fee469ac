-- ===== src/Nstart.antt =====
-- nstart.go: the table that bounds how many confirmable messages are in flight to one address.
-- An entry is shared by pointer and guarded by its own lock; here it is its count, and each critical
-- section is one operation. `s.cond.Wait()` is the answer `none`: the caller waits and tries again.
-- A goroutine that waits while NstartClear drops its entry goes on with the dropped entry in the
-- source; here it finds the table as it is then.
pub mod Bound
use coap.Base.{
  ℕ, zero, suc, ◌+◌, ◌-◌, Bool, true, false, List, [], ◌∷◌, Option, none, some, ltb, leb,
  if◌then◌else◌, length,
}
use coap.Base.Int.{ℤ, pos, negsuc}
use coap.Base.Maps.{load, store, delete, string_key}
use coap.Options.{Bytes}

abbrev pub NstartMap : Type 0
NstartMap = List (Bytes × ℤ)

abbrev pub suc_ℤ : ℤ → ℤ
suc_ℤ (pos n) = pos (suc n)
suc_ℤ (negsuc zero) = pos 0
suc_ℤ (negsuc (suc n)) = negsuc n

abbrev pub pred_ℤ : ℤ → ℤ
pred_ℤ (pos zero) = negsuc 0
pred_ℤ (pos (suc n)) = pos n
pred_ℤ (negsuc n) = negsuc (suc n)

-- `a < b`
abbrev pub lt_ℤ : ℤ → ℤ → Bool
lt_ℤ (pos a) (pos b) = ltb a b
lt_ℤ (pos a) (negsuc b) = false
lt_ℤ (negsuc a) (pos b) = true
lt_ℤ (negsuc a) (negsuc b) = ltb b a

-- An entry that is there: it is counted up unless the count has reached the limit.
unfoldable pub enter_count : NstartMap → Bytes → ℤ → Option ℤ → Option NstartMap
enter_count m addr n_start none = some (store addr (pos 1) m)
enter_count m addr n_start (some count) =
    if lt_ℤ count n_start then some (store addr (suc_ℤ count) m) else none

-- `nstartInc`; `none` is a wait.
unfoldable pub nstart_inc : NstartMap → Bytes → ℤ → Option NstartMap
unfolding enter_count
nstart_inc m addr n_start =
    if lt_ℤ (pos 0) n_start then enter_count m addr n_start (load addr m) else some m

-- How many more there are than the limit; -1 where there is no entry.
unfoldable pub excess : ℤ → Option ℤ → ℤ
excess n_start none = negsuc 0
excess (pos k) (some (pos c)) = pos (c - k)
excess (pos k) (some (negsuc c)) = pos 0
excess (negsuc k) (some (pos c)) = pos (c + suc k)
excess (negsuc k) (some (negsuc c)) = pos (k - c)

-- `nstartCount`
unfoldable pub nstart_count : NstartMap → Bytes → ℤ → ℤ
unfolding excess
nstart_count m addr n_start = excess n_start (load addr m)

unfoldable pub leave_count : NstartMap → Bytes → Option ℤ → NstartMap
leave_count m addr none = m
leave_count m addr (some count) = store addr (pred_ℤ count) m

-- `nstartDec`
unfoldable pub nstart_dec : NstartMap → Bytes → NstartMap
unfolding leave_count
nstart_dec m addr = leave_count m addr (load addr m)

-- `NstartClear`
unfoldable pub nstart_clear : NstartMap → Bytes → NstartMap
nstart_clear m addr = delete addr m

-- `NstartEntryCount`
unfoldable pub nstart_entry_count : NstartMap → ℕ
nstart_entry_count m = length m
