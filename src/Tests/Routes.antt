-- ===== src/Tests/Routes.antt =====
-- route.go at concrete routes.
use coap.Base.{ℕ, ◌≡◌, refl, List, [], ◌∷◌, Option, some, none, ok, arith, bytes_eq, OnSuccess}
use coap.Options.{Bytes}
use coap.Message.{split}
use coap.Route.{
  Routes, leaf, node, entry, find_route, put_route, part_name, add_parts, add_route, match_parts,
}
use coap.Route.Literal.{match_parts-add_parts}
use coap.Route.Slash.{IsSilent, add_route-trailing_slash}

abbrev a : Bytes
a = b'a' ∷ []

abbrev b : Bytes
b = b'b' ∷ []

-- The route `/a` with callback 1.
abbrev one_route : Routes ℕ
one_route = entry a (node [] (some 1) leaf) leaf

add_a : add_route (b'/' ∷ a) 1 leaf ≡ ok one_route
unfolding add_route split add_parts part_name put_route find_route bytes_eq
add_a = refl

match_variable :
    match_parts {C = ℕ}
      (a ∷ b ∷ [])
      (entry a (node [] none (entry (b'*' ∷ []) (node (b'i' ∷ []) (some 2) leaf) leaf)) leaf)
      none
      none
    ≡ (some 2, some ((b'i' ∷ [], b) ∷ []))
unfolding match_parts find_route bytes_eq
match_variable = refl

match_parts-add_parts_example :
    (routes' : Routes ℕ) × (add_parts (a ∷ b ∷ []) 5 one_route ≡ ok routes')
    × ((deepest : Option ℕ) (vars : Option (List (Bytes × Bytes)))
        → match_parts (a ∷ b ∷ []) routes' deepest vars ≡ (some 5, vars))
match_parts-add_parts_example =
    match_parts-add_parts a (b ∷ []) 5 one_route (λ e. omega arith, (λ e. omega arith, tt))

-- The first byte of a part, or 0.
abbrev first_byte : Bytes → ℕ
first_byte [] = 0
first_byte (c ∷ s) = c

abbrev no_routes : Routes ℕ
no_routes = leaf

add_route-trailing_slash_example :
    OnSuccess IsSilent (add_route (b'/' ∷ b'a' ∷ b'/' ∷ []) 1 no_routes)
add_route-trailing_slash_example = add_route-trailing_slash b'/' (b'a' ∷ []) 1 no_routes tt
