-- ===== src/Options/Order.antt =====
-- The stable order of message_options.go: what `sort.Stable` with `Less` does to the options.
use coap.Base.{
  ℕ, ◌≤◌, ◌≡◌, refl, ◌∙◌, List, [], ◌∷◌, ◌==◌, if◌then◌else◌, Bool-cases, inl, inr, arith, All,
}
use mathlib.Core.List.{Perm}
use mathlib.Core.List.Perm
use coap.Options.{Opt, less, insert, stable_sort, minus}

-- The numbers do not fall, from `p` on.
abbrev pub IsSortedFrom : ℕ → List Opt → Type 0
IsSortedFrom p [] = Unit {0}
IsSortedFrom p (o ∷ os) = (p ≤ o.id) × IsSortedFrom o.id os

pub IsSortedFrom-weaken : (p q : ℕ) (os : List Opt) → p ≤ q → IsSortedFrom q os → IsSortedFrom p os
IsSortedFrom-weaken p q [] le h = tt
IsSortedFrom-weaken p q (o ∷ os) le (h, hs) = (omega arith, hs)

insert-IsSortedFrom :
    (p : ℕ) (o : Opt) (os : List Opt) → p ≤ o.id → IsSortedFrom p os → IsSortedFrom p (insert o os)
unfolding insert
insert-IsSortedFrom p o [] le h = (le, tt)
insert-IsSortedFrom p o (q ∷ qs) le (h, hs) = elim (Bool-cases (less (1, q) (0, o))) [
  | inl e ↦ rw e (h, insert-IsSortedFrom q.id o qs (ground arith) hs)
  | inr e ↦ rw e (le, (ground arith, hs))
]

pub stable_sort-IsSortedFrom : (os : List Opt) → IsSortedFrom 0 (stable_sort os)
unfolding stable_sort
stable_sort-IsSortedFrom [] = tt
stable_sort-IsSortedFrom (o ∷ os) =
    insert-IsSortedFrom 0 o (stable_sort os) (omega arith) (stable_sort-IsSortedFrom os)

-- A list that is in order already stays as it is.
insert-IsSortedFrom_eq : (o : Opt) (os : List Opt) → IsSortedFrom o.id os → insert o os ≡ o ∷ os
unfolding insert
insert-IsSortedFrom_eq o [] h = refl
insert-IsSortedFrom_eq o (q ∷ qs) h = ground arith

pub stable_sort-eq : (p : ℕ) (os : List Opt) → IsSortedFrom p os → stable_sort os ≡ os
unfolding stable_sort
stable_sort-eq p [] h = refl
stable_sort-eq p (o ∷ os) (h, hs) = rw (stable_sort-eq o.id os hs) (insert-IsSortedFrom_eq o os hs)

-- The options with one number, in their order.
abbrev pub with_id : ℕ → List Opt → List Opt
with_id k [] = []
with_id k (o ∷ os) = let rest = with_id k os in if k == o.id then o ∷ rest else rest

with_id-insert : (k : ℕ) (o : Opt) (os : List Opt) → with_id k (insert o os) ≡ with_id k (o ∷ os)
unfolding insert
with_id-insert k o [] = refl
with_id-insert k o (q ∷ qs) = ground (arith, with_id-insert k o qs)

-- Sorting keeps, for every number, the options with that number and their order.
pub with_id-stable_sort : (k : ℕ) (os : List Opt) → with_id k (stable_sort os) ≡ with_id k os
unfolding stable_sort
with_id-stable_sort k [] = refl
with_id-stable_sort k (o ∷ os) =
    with_id-insert k o (stable_sort os) ∙ ground (arith, with_id-stable_sort k os)

insert-perm : (o : Opt) (os : List Opt) → Perm (insert o os) (o ∷ os)
unfolding insert
insert-perm o [] = Perm.refl (o ∷ [])
insert-perm o (q ∷ qs) = elim (Bool-cases (less (1, q) (0, o))) [
  | inl e ↦ rw e (Perm.trans (Perm.cons q (insert-perm o qs)) (Perm.swap o q qs))
  | inr e ↦ rw e (Perm.refl (o ∷ q ∷ qs))
]

-- Sorting adds and loses no option.
pub stable_sort-perm : (os : List Opt) → Perm (stable_sort os) os
unfolding stable_sort
stable_sort-perm [] = Perm.refl []
stable_sort-perm (o ∷ os) =
    Perm.trans (insert-perm o (stable_sort os)) (Perm.cons o (stable_sort-perm os))

-- What holds of every option holds after sorting.
insert-All : (P : Opt → Type 0) (o : Opt) (os : List Opt) → P o → All P os → All P (insert o os)
unfolding insert
insert-All P o [] h hs = (h, tt)
insert-All P o (q ∷ qs) h (k, ks) = elim (Bool-cases (less (1, q) (0, o))) [
  | inl e ↦ rw e (k, insert-All P o qs h ks)
  | inr e ↦ rw e (h, (k, ks))
]

pub stable_sort-All : (P : Opt → Type 0) (os : List Opt) → All P os → All P (stable_sort os)
unfolding stable_sort
stable_sort-All P [] h = tt
stable_sort-All P (o ∷ os) (h, hs) = insert-All P o (stable_sort os) h (stable_sort-All P os hs)

-- `Minus` leaves nothing of the number, and all the rest.
pub with_id-minus :
    (k j : ℕ) (os : List Opt) → with_id k (minus os j) ≡ (if k == j then [] else with_id k os)
unfolding minus
with_id-minus k j [] = ground arith
with_id-minus k j (o ∷ os) = ground (arith, with_id-minus k j os)

-- Sorting with `Less`, neighbour by neighbour, leaves the options in the order of their numbers, adds
-- and loses none, and keeps those with one number in their order.
pub stable_sort_lem :
    (os : List Opt)
    → IsSortedFrom 0 (stable_sort os)
      × Perm (stable_sort os) os
      × ((k : ℕ) → with_id k (stable_sort os) ≡ with_id k os)
stable_sort_lem os =
    (stable_sort-IsSortedFrom os, stable_sort-perm os, λ k. with_id-stable_sort k os)
