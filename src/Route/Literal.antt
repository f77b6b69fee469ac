-- ===== src/Route/Literal.antt =====
-- AddRoute and matchRoutes of route.go on paths without variables.
use coap.Base.{
  ℕ, ◌≡◌, ◌≢◌, refl, ap, ◌∙◌, Bool, true, false, List, [], ◌∷◌, Option, none, some, arith,
  bytes_eq_iff, bytes_eq_refl, Result, ok, err, panic, stuck, ◌>>=◌, All,
}
use coap.Options.{Bytes}
use coap.Route.{
  Route, Routes, node, star, find_route, put_route, children_of, is_last, updated_node, add_parts,
  match_parts,
}
use coap.Route.Table.{find_route-put_route, IsLiteral, part_name-literal}

module _ {C : Type 0} where
  add_parts_step :
      (c : ℕ) (s : Bytes) (rest : List Bytes) (cb : C) (routes : Routes C) {children : Routes C}
      → c ≢ b'{'
      → add_parts rest cb (children_of (find_route (c ∷ s) routes)) ≡ ok children
      → add_parts ((c ∷ s) ∷ rest) cb routes
        ≡ ok (
            put_route
              (c ∷ s)
              (updated_node (is_last rest) [] cb children (find_route (c ∷ s) routes))
              routes)
  unfolding add_parts
  add_parts_step c s rest cb routes h e = rw (part_name-literal c s h) (rw e refl)

  match_parts_step :
      (p : Bytes) (ps : List Bytes) (routes : Routes C) (deepest : Option C)
      (vars : Option (List (Bytes × Bytes))) {k : Bytes} {c : Option C} {children : Routes C}
      → find_route p routes ≡ some (node k c children)
      → match_parts (p ∷ ps) routes deepest vars ≡ match_parts ps children c vars
  unfolding match_parts
  match_parts_step p ps routes deepest vars e = rw (e, match_parts)

  updated_node_shape :
      (last : Bool) (key : Bytes) (cb : C) (children : Routes C) (o : Option (Route C))
      → (k : Bytes) × (c : Option C) × (updated_node last key cb children o ≡ node k c children)
        × (last ≡ true → c ≡ some cb)
  updated_node_shape true key cb children none = (key, some cb, refl, λ _. refl)
  updated_node_shape false key cb children none = (key, none, refl, λ e. cc)
  updated_node_shape true key cb children (some (node k c _)) = (k, some cb, refl, λ _. refl)
  updated_node_shape false key cb children (some (node k c _)) = (k, c, refl, λ e. cc)

  find_route-put_route_self :
      (p : Bytes) (r : Route C) (routes : Routes C) → find_route p (put_route p r routes) ≡ some r
  find_route-put_route_self p r routes = find_route-put_route p p r routes ∙ rw (bytes_eq_refl p)

  -- A path of literal parts is always entered, and then its parts find its callback and set no
  -- variable, whatever routes there were before.
  pub match_parts-add_parts :
      (p : Bytes) (ps : List Bytes) (cb : C) (routes : Routes C)
      → All IsLiteral (p ∷ ps)
      → (routes' : Routes C) × (add_parts (p ∷ ps) cb routes ≡ ok routes')
        × ((deepest : Option C) (vars : Option (List (Bytes × Bytes)))
            → match_parts (p ∷ ps) routes' deepest vars ≡ (some cb, vars))
  unfolding add_parts match_parts
  match_parts-add_parts [] ps cb routes h = absurd h.0
  match_parts-add_parts (c ∷ s) [] cb routes (h, _) =
      let p = c ∷ s in
      let old = find_route p routes in
      let (k, cb', e, here) = updated_node_shape true [] cb (children_of old) old in
      let r = updated_node true [] cb (children_of old) old in
      (
        put_route p r routes,
        add_parts_step c s [] cb routes h refl,
        λ deepest vars.
            match_parts_step p [] (put_route p r routes) deepest vars
              (find_route-put_route_self p r routes ∙ ap some e)
            ∙ rw (here refl),
      )
  match_parts-add_parts (c ∷ s) (q ∷ qs) cb routes (h, hs) =
      let p = c ∷ s in
      let old = find_route p routes in
      let (children, added, found) = match_parts-add_parts q qs cb (children_of old) hs in
      let (k, cb', e, _) = updated_node_shape false [] cb children old in
      let r = updated_node false [] cb children old in
      (
        put_route p r routes,
        add_parts_step c s (q ∷ qs) cb routes h added,
        λ deepest vars.
            match_parts_step p (q ∷ qs) (put_route p r routes) deepest vars
              (find_route-put_route_self p r routes ∙ ap some e)
            ∙ found cb' vars,
      )

  result_shape :
      (x : Result (Routes C)) (f : Routes C → Routes C) {y : Routes C}
      → (x >>= λ children. ok (f children)) ≡ ok y
      → (children : Routes C) × (y ≡ f children)
  result_shape (ok children) f e = (children, cc)
  result_shape (err x) f e = cc
  result_shape panic f e = cc
  result_shape stuck f e = cc

  add_parts_shape :
      (c : ℕ) (s : Bytes) (rest : List Bytes) (cb : C) (routes : Routes C) {routes' : Routes C}
      → c ≢ b'{'
      → add_parts ((c ∷ s) ∷ rest) cb routes ≡ ok routes'
      → (r : Route C) × (routes' ≡ put_route (c ∷ s) r routes)
  unfolding add_parts
  add_parts_shape c s rest cb routes h e =
      let old = find_route (c ∷ s) routes in
      let (children, e') =
        result_shape (add_parts rest cb (children_of old))
          (λ children. put_route (c ∷ s) (updated_node (is_last rest) [] cb children old) routes)
          (rw (part_name-literal c s h) at e) in
      (updated_node (is_last rest) [] cb children old, e')

  find_route-put_route_other :
      (p q : Bytes) (r : Route C) (routes : Routes C)
      → p ≢ q
      → find_route q (put_route p r routes) ≡ find_route q routes
  find_route-put_route_other p q r routes ne =
      ground (arith, find_route-put_route p q r routes, bytes_eq_iff p q)

  match_parts_by_level :
      (q : Bytes) (qs : List Bytes) (routes other : Routes C) (deepest : Option C)
      (vars : Option (List (Bytes × Bytes)))
      → find_route q routes ≡ find_route q other
      → find_route star routes ≡ find_route star other
      → match_parts (q ∷ qs) routes deepest vars ≡ match_parts (q ∷ qs) other deepest vars
  unfolding match_parts
  match_parts_by_level q qs routes other deepest vars e es = ground arith

  -- Entering a literal path changes no match of a path that begins with another part, also where
  -- that falls back on `*`.
  match_parts-other :
      (p q : Bytes) (ps qs : List Bytes) (cb : C) (routes routes' : Routes C) (deepest : Option C)
      (vars : Option (List (Bytes × Bytes)))
      → IsLiteral p
      → p ≢ q
      → p ≢ star
      → add_parts (p ∷ ps) cb routes ≡ ok routes'
      → match_parts (q ∷ qs) routes' deepest vars ≡ match_parts (q ∷ qs) routes deepest vars
  match_parts-other [] q ps qs cb routes routes' deepest vars h ne nstar e = absurd h
  match_parts-other (c ∷ s) q ps qs cb routes routes' deepest vars h ne nstar e =
      let (r, er) = add_parts_shape c s ps cb routes h e in
      rw er (
        match_parts_by_level q qs (put_route (c ∷ s) r routes) routes deepest vars
          (find_route-put_route_other (c ∷ s) q r routes ne)
          (find_route-put_route_other (c ∷ s) star r routes nstar))
