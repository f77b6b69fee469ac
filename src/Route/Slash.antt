-- ===== src/Route/Slash.antt =====
-- AddRoute of route.go on a path that ends in a slash.
use coap.Base.{
  ℕ, ◌==◌, arith, ◌≡◌, refl, false, List, [], ◌∷◌, ◌++◌, Option, none, some, bytes_eq, Bool-cases,
  inl, inr, Result, ok, err, panic, stuck, ◌>>=◌, OnSuccess, >>=-OnSuccess,
}
use coap.Options.{Bytes}
use coap.Message.{split, split_from, slash}
use coap.Route.{
  Route, Routes, node, leaf, entry, star, find_route, put_route, children_of, is_last, updated_node,
  part_name, add_parts, add_route, match_parts,
}

-- No entry of the tree has a callback.
abbrev mutual
  pub IsSilentRoute : {C : Type 0} → Route C → Type 0
  IsSilentRoute (node k none rs) = IsSilent rs
  IsSilentRoute (node k (some c) rs) = ⊥

  pub IsSilent : {C : Type 0} → Routes C → Type 0
  IsSilent leaf = Unit {0}
  IsSilent (entry p r rs) = IsSilentRoute r × IsSilent rs

not_last : (ps : List Bytes) → is_last (ps ++ ([] ∷ [])) ≡ false
not_last [] = refl
not_last (p ∷ ps) = refl

split_from-append :
    (sep : ℕ) (acc s : Bytes)
    → split_from sep acc (s ++ (sep ∷ [])) ≡ split_from sep acc s ++ ([] ∷ [])
unfolding split_from
split_from-append sep acc [] = ground arith
split_from-append sep acc (c ∷ s) = elim (Bool-cases (c == sep)) [
  | inl e ↦ rw (e, split_from-append sep [] s)
  | inr e ↦ rw (e, split_from-append sep (acc ++ (c ∷ [])) s)
]

bytes_eq-longer :
    (c : ℕ) (s : Bytes) (d : ℕ) (t : Bytes) → bytes_eq ((c ∷ s) ++ (d ∷ t)) (slash ∷ []) ≡ false
unfolding bytes_eq
bytes_eq-longer c [] d t = ground arith
bytes_eq-longer c (e ∷ s) d t = ground arith

any_result {ℓ} : {A : Type ℓ} (r : Result A) → OnSuccess (λ _. Unit {0}) r
any_result (ok a) = tt
any_result (err e) = tt
any_result panic = tt
any_result stuck = tt

module _ {C : Type 0} where
  abbrev IsSilentOption : Option (Route C) → Type 0
  IsSilentOption none = Unit {0}
  IsSilentOption (some r) = IsSilentRoute r

  find_route-IsSilent : (p : Bytes) (rs : Routes C) → IsSilent rs → IsSilentOption (find_route p rs)
  unfolding find_route
  find_route-IsSilent p leaf h = tt
  find_route-IsSilent p (entry q r rs) (h, hs) = elim (Bool-cases (bytes_eq q p)) [
    | inl e ↦ rw e h
    | inr e ↦ rw e (find_route-IsSilent p rs hs)
  ]

  put_route-IsSilent :
      (p : Bytes) (r : Route C) (rs : Routes C)
      → IsSilentRoute r
      → IsSilent rs
      → IsSilent (put_route p r rs)
  unfolding put_route
  put_route-IsSilent p r leaf hr h = (hr, tt)
  put_route-IsSilent p r (entry q s rs) hr (h, hs) = elim (Bool-cases (bytes_eq q p)) [
    | inl e ↦ rw e (hr, hs)
    | inr e ↦ rw e (h, put_route-IsSilent p r rs hr hs)
  ]

  children_of-IsSilent : (o : Option (Route C)) → IsSilentOption o → IsSilent (children_of o)
  children_of-IsSilent none h = tt
  children_of-IsSilent (some (node k none rs)) h = h
  children_of-IsSilent (some (node k (some c) rs)) h = absurd h

  updated_node-IsSilent :
      (key : Bytes) (cb : C) (children : Routes C) (o : Option (Route C))
      → IsSilent children
      → IsSilentOption o
      → IsSilentRoute (updated_node false key cb children o)
  updated_node-IsSilent key cb children none h ho = h
  updated_node-IsSilent key cb children (some (node k none rs)) h ho = h
  updated_node-IsSilent key cb children (some (node k (some c) rs)) h ho = absurd ho

  -- What follows the part's name in the loop.
  abbrev with_name : List Bytes → C → Routes C → Bytes × Bytes → Result (Routes C)
  with_name rest cb routes n = do
    children ← add_parts rest cb (children_of (find_route n.0 routes))
    ok (put_route n.0 (updated_node (is_last rest) n.1 cb children (find_route n.0 routes)) routes)

  -- Parts that end in an empty one are entered without a callback.
  pub add_parts-trailing_slash :
      (ps : List Bytes) (cb : C) (routes : Routes C)
      → IsSilent routes
      → OnSuccess IsSilent (add_parts (ps ++ ([] ∷ [])) cb routes)
  unfolding add_parts
  add_parts-trailing_slash [] cb routes h = h
  add_parts-trailing_slash ([] ∷ ps) cb routes h = add_parts-trailing_slash ps cb routes h
  add_parts-trailing_slash ((c ∷ s) ∷ ps) cb routes h =
      let rest = ps ++ ([] ∷ []) in
      >>=-OnSuccess (λ _. Unit {0}) IsSilent (part_name c s) (with_name rest cb routes)
        (any_result (part_name c s))
        λ n _.
          let old = find_route-IsSilent n.0 routes h in
          >>=-OnSuccess IsSilent IsSilent (add_parts rest cb (children_of (find_route n.0 routes)))
            (λ children. ok (
              put_route n.0 (updated_node (is_last rest) n.1 cb children (find_route n.0 routes))
                routes))
            (add_parts-trailing_slash ps cb (children_of (find_route n.0 routes))
              (children_of-IsSilent (find_route n.0 routes) old))
            λ children hc.
              put_route-IsSilent n.0 _ routes
                (rw (not_last ps)
                  (updated_node-IsSilent n.1 cb children (find_route n.0 routes) hc old))
                h

  -- AddRoute of a path that ends in a slash, other than the slash alone, does not enter its callback:
  -- where no entry had a callback before, none has one afterwards, unless AddRoute panics on a part `{`.
  pub add_route-trailing_slash :
      (c : ℕ) (path : Bytes) (cb : C) (routes : Routes C)
      → IsSilent routes
      → OnSuccess IsSilent (add_route ((c ∷ path) ++ (slash ∷ [])) cb routes)
  unfolding add_route split
  add_route-trailing_slash c path cb routes h =
      rw (bytes_eq-longer c path slash [], split_from-append slash [] (c ∷ path))
        (add_parts-trailing_slash (split_from slash [] (c ∷ path)) cb routes h)

  silent_level :
      (q : Bytes) (qs : List Bytes) (routes : Routes C) (vars : Option (List (Bytes × Bytes)))
      (below : (rs : Routes C) (vs : Option (List (Bytes × Bytes)))
        → IsSilent rs
        → (match_parts qs rs none vs).0 ≡ none)
      (o s : Option (Route C))
      → find_route q routes ≡ o
      → find_route star routes ≡ s
      → IsSilentOption o
      → IsSilentOption s
      → (match_parts (q ∷ qs) routes none vars).0 ≡ none
  unfolding match_parts
  silent_level q qs routes vars below (some (node k none rs)) s eo es ho hs =
      rw (eo, match_parts) (below rs vars ho)
  silent_level q qs routes vars below (some (node k (some c) rs)) s eo es ho hs = absurd ho
  silent_level q qs routes vars below none none eo es ho hs =
      rw (eo, match_parts) (rw (es, match_parts) refl)
  silent_level q qs routes vars below none (some (node k none rs)) eo es ho hs =
      rw (eo, match_parts) (rw (es, match_parts) (below rs _ hs))
  silent_level q qs routes vars below none (some (node k (some c) rs)) eo es ho hs = absurd hs

  -- In such a tree no path finds a callback.
  pub match_parts-IsSilent :
      (qs : List Bytes) (routes : Routes C) (vars : Option (List (Bytes × Bytes)))
      → IsSilent routes
      → (match_parts qs routes none vars).0 ≡ none
  unfolding match_parts
  match_parts-IsSilent [] routes vars h = refl
  match_parts-IsSilent (q ∷ qs) routes vars h =
      silent_level q qs routes vars (match_parts-IsSilent qs) (find_route q routes)
        (find_route star routes) refl refl (find_route-IsSilent q routes h)
        (find_route-IsSilent star routes h)
