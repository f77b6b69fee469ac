-- ===== src/Message/Queries.antt =====
-- message.go: queries as options and as a map.
-- A Go map is an association list of distinct keys, in the order in which a range takes them.
use coap.Base.{
  ℕ, ◌≡◌, refl, sym, ap, ◌∙◌, Bool, true, false, ◌||◌, List, [], ◌∷◌, ◌++◌, Option, none, some,
  append-nil, append_assoc, ◌==◌, Bool-cases, inl, inr, arith,
}
use coap.Base.Maps.{load, store, string_key, load-store, same}
use coap.Options.{Bytes, Value, text, opt_uri_query}
use coap.Message.{Message, options, with_option, split_from, split}
use coap.Message.Values.{options-with_option}

abbrev pub Vars : Type 0
Vars = List (Bytes × Bytes)

abbrev pair_of : Bytes → List Bytes → Bytes × Bytes
pair_of qs (k ∷ v ∷ []) = (k, v)
pair_of qs _ = (qs, [])

-- A round of the loop of `ParseQuery`: a value that is no string is passed over.
unfoldable pub add_query : Vars → Value → Vars
add_query vars (text qs) = let (k, v) = pair_of qs (split b'=' qs) in store k v vars
add_query vars _ = vars

unfoldable pub parse_vars : Vars → List Value → Vars
parse_vars vars [] = vars
parse_vars vars (q ∷ qa) = parse_vars (add_query vars q) qa

-- `ParseQuery`, which keeps its result in the message.
unfoldable pub parse_query : Message → Message × Vars
unfolding parse_vars
parse_query m = elim m.query_vars [
  | some vars ↦ (m, vars)
  | none ↦
      let vars = parse_vars [] (options m opt_uri_query) in
      (record m { query_vars = some vars }, vars)
]

unfoldable pub query_text : Bytes → Bytes → Bytes
query_text k [] = k
query_text k (c ∷ v) = k ++ (b'=' ∷ c ∷ v)

-- `WithQuery`
unfoldable pub with_query : Message → Vars → Message
unfolding query_text
with_query m [] = m
with_query m ((k, v) ∷ q) = with_query (with_option m opt_uri_query (text (query_text k v)) false) q

-- Whether a byte is in the text.
unfoldable pub has : ℕ → Bytes → Bool
has c [] = false
has c (d ∷ s) = (d == c) || has c s

-- Keys and values without `=`, and each key once.
abbrev pub IsPlain : Vars → Type 0
IsPlain [] = Unit {0}
IsPlain ((k, v) ∷ q) = (has b'=' k ≡ false) × (has b'=' v ≡ false) × (load k q ≡ none) × IsPlain q

split_from-plain :
    (sep : ℕ) (acc s : Bytes) → has sep s ≡ false → split_from sep acc s ≡ (acc ++ s) ∷ []
unfolding split_from has
split_from-plain sep acc [] h = rw append-nil refl
split_from-plain sep acc (c ∷ s) h =
    let e : (c == sep) ≡ false = ground arith in
    rw e (
      split_from-plain sep (acc ++ (c ∷ [])) s (ground arith)
      ∙ ap (λ t. t ∷ []) (append_assoc acc (c ∷ []) s))

pub split_from-pair :
    (sep : ℕ) (acc k v : Bytes)
    → has sep k ≡ false
    → has sep v ≡ false
    → split_from sep acc (k ++ (sep ∷ v)) ≡ (acc ++ k) ∷ v ∷ []
unfolding split_from has
split_from-pair sep acc [] v h hv =
    let e : (sep == sep) ≡ true = ground arith in
    rw e (rw append-nil (ap (λ t. acc ∷ t) (split_from-plain sep [] v hv)))
split_from-pair sep acc (c ∷ k) v h hv =
    let e : (c == sep) ≡ false = ground arith in
    rw e (
      split_from-pair sep (acc ++ (c ∷ [])) k v (ground arith) hv
      ∙ ap (λ t. t ∷ v ∷ []) (append_assoc acc (c ∷ []) k))

add_query-query_text :
    (vars : Vars) (k v : Bytes)
    → has b'=' k ≡ false
    → has b'=' v ≡ false
    → add_query vars (text (query_text k v)) ≡ store k v vars
unfolding add_query query_text split
add_query-query_text vars k [] hk hv = rw (split_from-plain b'=' [] k hk) refl
add_query-query_text vars k (c ∷ v) hk hv = rw (split_from-pair b'=' [] k (c ∷ v) hk hv) refl

query_values : Vars → List Value
query_values [] = []
query_values ((k, v) ∷ q) = text (query_text k v) ∷ query_values q

options-with_query :
    (m : Message) (q : Vars)
    → options (with_query m q) opt_uri_query ≡ options m opt_uri_query ++ query_values q
unfolding with_query query_values
options-with_query m [] = sym (append-nil (options m opt_uri_query))
options-with_query m ((k, v) ∷ q) =
    let t = text (query_text k v) in
    let added = options-with_option m opt_uri_query opt_uri_query t false in
    options-with_query (with_option m opt_uri_query t false) q
    ∙ ap (λ vs. vs ++ query_values q) (added ∙ ground arith)
    ∙ append_assoc (options m opt_uri_query) (t ∷ []) (query_values q)

query_vars-with_query : (m : Message) (q : Vars) → (with_query m q).query_vars ≡ m.query_vars
unfolding with_query with_option
query_vars-with_query m [] = refl
query_vars-with_query m ((k, v) ∷ q) =
    query_vars-with_query (with_option m opt_uri_query (text (query_text k v)) false) q

abbrev or_before : Option Bytes → Option Bytes → Option Bytes
or_before none before = before
or_before (some v) before = some v

load-parse_vars :
    (vars q : Vars) (j : Bytes)
    → IsPlain q
    → load j (parse_vars vars (query_values q)) ≡ or_before (load j q) (load j vars)
unfolding parse_vars load query_values
load-parse_vars vars [] j h = refl
load-parse_vars vars ((k, v) ∷ q) j (hk, hv, fresh, hq) =
    let first = add_query-query_text vars k v hk hv in
    ap (λ x. load j (parse_vars x (query_values q))) first
    ∙ load-parse_vars (store k v vars) q j hq
    ∙ ap (or_before (load j q)) (load-store k j v vars)
    ∙ (elim (Bool-cases (same k j)) [
      | inl e ↦
          let here : k ≡ j = (string_key.key_eq_iff k j).0 e in
          let absent : load j q ≡ none = ap (λ x. load x q) (sym here) ∙ fresh in
          rw (e, absent) refl
      | inr e ↦ rw e refl
    ])

or_before-none : (o : Option Bytes) → or_before o none ≡ o
or_before-none none = refl
or_before-none (some v) = refl

parse_query-fresh :
    (m : Message)
    → m.query_vars ≡ none
    → (parse_query m).1 ≡ parse_vars [] (options m opt_uri_query)
unfolding parse_query options
parse_query-fresh m h = rw (h, parse_query) refl

-- The queries that `WithQuery` adds to a message without any are those that `ParseQuery` finds, if
-- no key and no value has a `=`.
pub parse_query-with_query :
    (m : Message) (q : Vars) (j : Bytes)
    → IsPlain q
    → options m opt_uri_query ≡ []
    → m.query_vars ≡ none
    → load j (parse_query (with_query m q)).1 ≡ load j q
unfolding load
parse_query-with_query m q j h none_before fresh =
    let added = options-with_query m q ∙ ap (λ vs. vs ++ query_values q) none_before in
    ap (load j) (parse_query-fresh (with_query m q) (query_vars-with_query m q ∙ fresh))
    ∙ ap (λ vs. load j (parse_vars [] vs)) added
    ∙ load-parse_vars [] q j h
    ∙ or_before-none (load j q)
