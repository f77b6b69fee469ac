-- ===== src/Nstart/Bound.antt =====
-- nstart.go: what every interleaving of nstartInc and nstartDec keeps.
use coap.Base.{
  ℕ, suc, ◌+◌, ◌≤◌, ◌<◌, ◌≡◌, refl, ap, ◌∙◌, Bool, true, false, List, [], ◌∷◌, ◌++◌, Option, none,
  some, if◌then◌else◌, arith, Option-cases, inl, inr, Bool-cases, bytes_eq, bytes_eq_iff,
  bytes_eq_refl,
}
use coap.Base.Int.{ℤ, pos}
use mathlib.Core.Path.{subst}
use coap.Base.Maps.{load, store, string_key, load-store}
use coap.Options.{Bytes}
use coap.Nstart.{NstartMap, nstart_inc, nstart_dec}

-- The table, and the address of each send that is between its `nstartInc` and its `nstartDec`.
pub record Senders : Type 0 where
  pub table : NstartMap
  pub sending : List Bytes

abbrev pub in_flight : Bytes → List Bytes → ℕ
in_flight addr [] = 0
in_flight addr (a ∷ others) =
    let rest = in_flight addr others in if bytes_eq a addr then suc rest else rest

-- Any goroutine may begin a send as soon as `nstartInc` lets it, and any send may end.
pub data Step (limit : ℕ) : Senders → Senders → Type 0 where
  begin :
      (s : Senders) (addr : Bytes) (m : NstartMap)
      → nstart_inc s.table addr (pos limit) ≡ some m
      → Step limit s (record { table = m; sending = addr ∷ s.sending })
  end :
      (s : Senders) (before after : List Bytes) (addr : Bytes)
      → s.sending ≡ before ++ (addr ∷ after)
      → Step limit s (record { table = nstart_dec s.table addr; sending = before ++ after })

pub data Reach (limit : ℕ) (s : Senders) : Senders → Type 0 where
  here : Reach limit s s
  next : {t u : Senders} → Reach limit s t → Step limit t u → Reach limit s u

abbrev pub idle : Senders
idle = record { table = []; sending = [] }

abbrev pub IsCounted : Option ℤ → ℕ → Type 0
IsCounted none n = n ≡ 0
IsCounted (some c) n = c ≡ pos n

-- The count of every address is the number of sends in flight to it, and at most the limit.
pub record IsBounded (limit : ℕ) (s : Senders) : Type 0 where
  pub exact : (addr : Bytes) → IsCounted (load addr s.table) (in_flight addr s.sending)
  pub capped : (addr : Bytes) → in_flight addr s.sending ≤ limit

inc_count :
    (m : NstartMap) (addr : Bytes) (limit n : ℕ) {m' : NstartMap}
    → 0 < limit
    → IsCounted (load addr m) n
    → nstart_inc m addr (pos limit) ≡ some m'
    → (n < limit) × (m' ≡ store addr (pos (suc n)) m)
unfolding nstart_inc
inc_count m addr limit n h c e = elim (Option-cases (load addr m)) [
  | inl l ↦ ground arith
  | inr (k, l) ↦ ground arith
]

dec_count :
    (m : NstartMap) (addr : Bytes) (n : ℕ)
    → IsCounted (load addr m) (suc n)
    → nstart_dec m addr ≡ store addr (pos n) m
unfolding nstart_dec
dec_count m addr n c = elim (Option-cases (load addr m)) [
  | inl l ↦ ground arith
  | inr (k, l) ↦ ground arith
]

-- The new count is the one that the address itself has.
IsCounted-store_at :
    (m : NstartMap) (addr a : Bytes) (f : Bytes → ℕ) (k : ℕ)
    → IsCounted (load a m) k
    → IsCounted (load a (store addr (pos (f addr)) m)) (if bytes_eq addr a then f a else k)
IsCounted-store_at m addr a f k c = elim (Bool-cases (bytes_eq addr a)) [
  | inl e ↦
      let same_addr : addr ≡ a = (bytes_eq_iff addr a).0 e in
      rw (e, load-store addr a (pos (f addr)) m) (rw (e, same_addr) refl)
  | inr e ↦ rw (e, load-store addr a (pos (f addr)) m) (rw e c)
]

in_flight-append :
    (addr : Bytes) (xs ys : List Bytes)
    → in_flight addr (xs ++ ys) ≡ in_flight addr xs + in_flight addr ys
in_flight-append addr [] ys = omega arith
in_flight-append addr (x ∷ xs) ys = ground (arith, in_flight-append addr xs ys)

in_flight-remove :
    (addr a : Bytes) (xs ys : List Bytes)
    → in_flight a (xs ++ (addr ∷ ys))
      ≡ (if bytes_eq addr a then suc (in_flight a (xs ++ ys)) else in_flight a (xs ++ ys))
in_flight-remove addr a xs ys =
    ground (arith, in_flight-append a xs (addr ∷ ys), in_flight-append a xs ys)

begin-IsBounded :
    (limit : ℕ) (s : Senders) (addr : Bytes) (m : NstartMap)
    → 0 < limit
    → nstart_inc s.table addr (pos limit) ≡ some m
    → IsBounded limit s
    → IsBounded limit (record { table = m; sending = addr ∷ s.sending })
begin-IsBounded limit s addr m h e b =
    let (less, em) = inc_count s.table addr limit (in_flight addr s.sending) h (b.exact addr) e in
    record {
      exact = λ a. rw em (
          IsCounted-store_at s.table addr a (λ x. suc (in_flight x s.sending))
            (in_flight a s.sending) (b.exact a));
      capped = λ a. ground (arith, bytes_eq_iff addr a, b.capped a);
    }

if_removed : (test : Bool) (n k : ℕ) → k ≡ (if test then suc n else n) → (if test then n else k) ≡ n
if_removed true n k e = refl
if_removed false n k e = e

end-IsBounded :
    (limit : ℕ) (s : Senders) (xs ys : List Bytes) (addr : Bytes)
    → s.sending ≡ xs ++ (addr ∷ ys)
    → IsBounded limit s
    → IsBounded limit (record { table = nstart_dec s.table addr; sending = xs ++ ys })
end-IsBounded limit s xs ys addr es b =
    let was = λ (a : Bytes). ap (in_flight a) es ∙ in_flight-remove addr a xs ys in
    let left = in_flight addr (xs ++ ys) in
    let e : nstart_dec s.table addr ≡ store addr (pos left) s.table =
      dec_count s.table addr left (
        subst (IsCounted (load addr s.table)) (was addr ∙ rw (bytes_eq_refl addr))
          (b.exact addr)) in
    record {
      exact = λ a. rw e (
          subst (IsCounted (load a (store addr (pos left) s.table)))
            (if_removed (bytes_eq addr a) (in_flight a (xs ++ ys)) (in_flight a s.sending) (was a))
            (IsCounted-store_at s.table addr a (λ x. in_flight x (xs ++ ys)) (in_flight a s.sending)
              (b.exact a)));
      capped = λ a. ground (arith, was a, b.capped a);
    }

-- From an empty table, whatever sends begin and end in whatever order: the count of every address
-- is the number of sends in flight to it, and no more than the limit are in flight to one address.
pub Reach-IsBounded : (limit : ℕ) (s : Senders) → 0 < limit → Reach limit idle s → IsBounded limit s
Reach-IsBounded limit s h here = record {
  exact = λ a. unfold load in refl;
  capped = λ a. omega arith;
}
Reach-IsBounded limit s h (next r (begin t addr m e)) =
    begin-IsBounded limit t addr m h e (Reach-IsBounded limit t h r)
Reach-IsBounded limit s h (next r (end t xs ys addr e)) =
    end-IsBounded limit t xs ys addr e (Reach-IsBounded limit t h r)
