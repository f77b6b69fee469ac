-- ===== src/Route.antt =====
-- route.go: the tree of routes, and the callback that a path finds in it.
-- A `map[string]*routeEntry` is a list of parts with their entries; callbacks are values of any
-- type. AddRoute changes the maps in place, and here returns the new tree.
pub mod Table
pub mod Literal
pub mod Slash
use coap.Base.{
  ℕ, ◌-◌, Bool, true, false, List, [], ◌∷◌, Option, none, some, ◌==◌, if◌then◌else◌, length, take,
  bytes_eq, Result, ok, panic, ◌>>=◌,
}
use coap.Base.Maps.{store, string_key}
use coap.Options.{Bytes}
use coap.Message.{slash, split}

mutual
  -- `routeEntry`: the name of its path variable, its callback and its children.
  pub data Route (C : Type 0) : Type 0 where
    node : Bytes → Option C → Routes C → Route C

  pub data Routes (C : Type 0) : Type 0 where
    leaf : Routes C
    entry : Bytes → Route C → Routes C → Routes C

abbrev pub star : Bytes
star = b'*' ∷ []

abbrev pub brace : ℕ
brace = b'{'

abbrev pub is_last : List Bytes → Bool
is_last [] = true
is_last (_ ∷ _) = false

module _ {C : Type 0} where
  unfoldable pub find_route : Bytes → Routes C → Option (Route C)
  find_route p leaf = none
  find_route p (entry q r rs) = if bytes_eq q p then some r else find_route p rs

  unfoldable pub put_route : Bytes → Route C → Routes C → Routes C
  put_route p r leaf = entry p r leaf
  put_route p r (entry q s rs) = if bytes_eq q p then entry p r rs else entry q s (put_route p r rs)

  abbrev pub children_of : Option (Route C) → Routes C
  children_of none = leaf
  children_of (some (node k c rs)) = rs

  -- An entry that is there keeps its variable's name, and gets the callback at the path's end.
  abbrev pub updated_node : Bool → Bytes → C → Routes C → Option (Route C) → Route C
  updated_node last key cb children none = node key (if last then some cb else none) children
  updated_node last key cb children (some (node k c _)) =
      node k (if last then some cb else c) children

-- The part under which an entry stands and the name of its variable: `{name}` stands under `*`.
-- A part `{` alone is cut by `part[1:0]`, which panics.
unfoldable pub part_name : ℕ → Bytes → Result (Bytes × Bytes)
part_name c [] = if c == brace then panic else ok (c ∷ [], [])
part_name c (d ∷ s) = if c == brace then ok (star, take (length s) (d ∷ s)) else ok (c ∷ d ∷ s, [])

-- `msg.PathVars[route.key] = part`, on a map that is made where it is nil.
abbrev pub set_var : Bytes → Bytes → Option (List (Bytes × Bytes)) → Option (List (Bytes × Bytes))
set_var k v none = some ((k, v) ∷ [])
set_var k v (some m) = some (store k v m)

module _ {C : Type 0} where
  -- The loop of `AddRoute`. An empty part is passed over, also when it is the last.
  unfoldable pub add_parts : List Bytes → C → Routes C → Result (Routes C)
  add_parts [] cb routes = ok routes
  add_parts ([] ∷ rest) cb routes = add_parts rest cb routes
  add_parts ((c ∷ s) ∷ rest) cb routes = do
    (name, key) ← part_name c s
    children ← add_parts rest cb (children_of (find_route name routes))
    ok (
        put_route name (updated_node (is_last rest) key cb children (find_route name routes))
          routes)

  unfoldable pub add_route : Bytes → C → Routes C → Result (Routes C)
  add_route path cb routes =
      if bytes_eq path (slash ∷ [])
      then ok (put_route star (node [] (some cb) leaf) routes)
      else add_parts (split slash path) cb routes

  -- The loop of `matchRoutes`: the callback of the deepest entry so far, and the path variables.
  unfoldable pub match_parts :
      List Bytes
      → Routes C
      → Option C
      → Option (List (Bytes × Bytes))
      → Option C × Option (List (Bytes × Bytes))
  match_parts [] routes deepest vars = (deepest, vars)
  match_parts (p ∷ ps) routes deepest vars = elim (find_route p routes) [
    | some (node k c children) ↦ match_parts ps children c vars
    | none ↦ elim (find_route star routes) [
      | some (node k c children) ↦ match_parts ps children c (set_var k p vars)
      | none ↦ (deepest, vars)
    ]
  ]

  unfoldable pub match_routes :
      Bytes → Routes C → Option (List (Bytes × Bytes)) → Option C × Option (List (Bytes × Bytes))
  match_routes path routes vars = match_parts (split slash path) routes none vars

  abbrev pub callback_of : Option (Route C) → Option C
  callback_of none = none
  callback_of (some (node k c children)) = c

  -- `getSpecialRoute`: the path is one part, and no variable is set.
  unfoldable pub get_special_route : Bytes → Routes C → Option C
  get_special_route path routes = elim (find_route path routes) [
    | some r ↦ callback_of (some r)
    | none ↦ callback_of (find_route star routes)
  ]
