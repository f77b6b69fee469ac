-- ===== src/Route/Table.antt =====
-- route.go: one level of the tree as a map from parts to entries.
use coap.Base.{ℕ, ◌≡◌, ◌≢◌, refl, [], ◌∷◌, some, if◌then◌else◌, arith, bytes_eq, bytes_eq_iff, ok}
use coap.Options.{Bytes}
use coap.Route.{Route, Routes, leaf, entry, find_route, put_route, part_name, brace}

module _ {C : Type 0} where
  pub find_route-put_route :
      (p q : Bytes) (r : Route C) (rs : Routes C)
      → find_route q (put_route p r rs) ≡ (if bytes_eq p q then some r else find_route q rs)
  unfolding find_route put_route
  find_route-put_route p q r leaf = refl
  find_route-put_route p q r (entry k s rs) =
      ground
        (arith, bytes_eq_iff p q, bytes_eq_iff k p, bytes_eq_iff k q, find_route-put_route p q r rs)

-- A part that is no variable.
abbrev pub IsLiteral : Bytes → Type 0
IsLiteral [] = ⊥
IsLiteral (c ∷ s) = c ≢ brace

pub part_name-literal : (c : ℕ) (s : Bytes) → c ≢ brace → part_name c s ≡ ok (c ∷ s, [])
unfolding part_name
part_name-literal c [] h = ground arith
part_name-literal c (d ∷ s) h = ground arith
