-- ===== src/Base/Maps.antt =====
-- Go maps and `sync.Map`s as association lists without repeated keys.
use Prim.Native.Nat.{ℕ}
use mathlib.Core.Path.{◌≡◌, refl}
use mathlib.Core.Logic.{◌↔◌}
use mathlib.Core.Bool.{Bool, true}
use mathlib.Core.Option.{Option, none, some}
use mathlib.Core.List.{List, [], ◌∷◌}
use native.Mathlib.Omega.{arith}
use coap.Base.Tests.{◌==◌, ==_iff, bytes_eq, bytes_eq_iff, if◌then◌else◌}

-- What Go's `==` on the keys gives.
pub record Key (K : Type 0) : Type 0 where
  pub key_eq : K → K → Bool
  pub key_eq_iff : (a b : K) → (key_eq a b ≡ true) ↔ (a ≡ b)

abbrev number_eq : ℕ → ℕ → Bool
number_eq a b = a == b

instance abbrev pub number_key : Key ℕ
number_key = record { key_eq = number_eq; key_eq_iff = ==_iff }

instance abbrev pub string_key : Key (List ℕ)
string_key = record { key_eq = bytes_eq; key_eq_iff = bytes_eq_iff }

abbrev pub same : {K : Type 0} ⦃e : Key K⦄ → K → K → Bool
same ⦃e⦄ = e.key_eq

pub key_eq_refl : {K : Type 0} ⦃e : Key K⦄ (k : K) → same k k ≡ true
key_eq_refl ⦃e⦄ k = (e.key_eq_iff k k).1 refl

module _ {K V : Type 0} ⦃e : Key K⦄ where
  unfoldable pub load : K → List (K × V) → Option V
  load k [] = none
  load k ((j, v) ∷ m) = let rest = load k m in if same j k then some v else rest

  unfoldable pub delete : K → List (K × V) → List (K × V)
  delete k [] = []
  delete k ((j, v) ∷ m) = let rest = delete k m in if same j k then rest else (j, v) ∷ rest

  unfoldable pub store : K → V → List (K × V) → List (K × V)
  unfolding delete
  store k v m = (k, v) ∷ delete k m

  pub load-delete :
      (k j : K) (m : List (K × V)) → load j (delete k m) ≡ (if same k j then none else load j m)
  unfolding load delete
  load-delete k j [] = ground arith
  load-delete k j ((i, v) ∷ m) =
      ground (arith, e.key_eq_iff k j, e.key_eq_iff i k, e.key_eq_iff i j, load-delete k j m)

  pub load-store :
      (k j : K) (v : V) (m : List (K × V))
      → load j (store k v m) ≡ (if same k j then some v else load j m)
  unfolding load store
  load-store k j v m = ground (arith, load-delete k j m)

  pub load-store_self : (k : K) (v : V) (m : List (K × V)) → load k (store k v m) ≡ some v
  load-store_self k v m = rw (load-store k k v m, key_eq_refl k)

  pub load-delete_self : (k : K) (m : List (K × V)) → load k (delete k m) ≡ none
  load-delete_self k m = rw (load-delete k k m, key_eq_refl k) refl
