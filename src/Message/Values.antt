-- ===== src/Message/Values.antt =====
-- message.go: what Options and Option see after WithOption, RemoveOption and a sort.
use coap.Base.{
  ℕ, ◌≡◌, refl, ◌∙◌, Bool, true, false, List, [], ◌∷◌, ◌++◌, append-nil, ◌==◌, if◌then◌else◌, arith,
  map,
}
use coap.Options.{Bytes, Value, null, text, texts, Opt, minus, stable_sort, insert}
use coap.Message.{
  Message, options_of, options, option_of, option, remove_option, entries, with_option,
}

-- The values that `WithOption` adds for a value.
abbrev pub values : Value → List Value
values (texts ss) = map (λ s. text s) ss
values v = v ∷ []

abbrev pub first : List Value → Value
first [] = null
first (v ∷ vs) = v

-- `Option` is the first of `Options`, or nil.
pub option-first : (m : Message) (k : ℕ) → option m k ≡ first (options m k)
unfolding option options
option-first m k = go k m.opts
  where
    go : (k : ℕ) (os : List Opt) → option_of k os ≡ first (options_of k os)
    go k [] = refl
    go k (o ∷ os) = ground (arith, go k os)

options_of-append :
    (k : ℕ) (os ps : List Opt) → options_of k (os ++ ps) ≡ options_of k os ++ options_of k ps
unfolding options_of
options_of-append k [] ps = refl
options_of-append k (o ∷ os) ps = ground (arith, options_of-append k os ps)

options_of-minus :
    (k j : ℕ) (os : List Opt) → options_of k (minus os j) ≡ (if k == j then [] else options_of k os)
unfolding options_of minus
options_of-minus k j [] = ground arith
options_of-minus k j (o ∷ os) = ground (arith, options_of-minus k j os)

options_of-texts :
    (k j : ℕ) (ss : List Bytes)
    → options_of k (map (λ s. record { id = j; value = text s }) ss)
      ≡ (if k == j then map (λ s. text s) ss else [])
unfolding options_of
options_of-texts k j [] = ground arith
options_of-texts k j (s ∷ ss) = ground (arith, options_of-texts k j ss)

options_of-entries :
    (k j : ℕ) (v : Value) → options_of k (entries j v) ≡ (if k == j then values v else [])
unfolding entries options_of
options_of-entries k j (texts ss) = options_of-texts k j ss
options_of-entries k j v = refl

-- What `Options` gives after `WithOption`: under the option's own number the values that were there,
-- unless they are replaced, and then the new ones (one for each string of a slice); under every
-- other number the same values as before.
pub options-with_option :
    (m : Message) (k j : ℕ) (v : Value) (replace : Bool)
    → options (with_option m j v replace) k
      ≡ (if k == j then (if replace then [] else options m k) ++ values v else options m k)
unfolding with_option options remove_option
options-with_option m k j v true =
    options_of-append k (minus m.opts j) (entries j v)
    ∙ rw (options_of-minus k j m.opts, options_of-entries k j v)
        (ground (arith, append-nil (options_of k m.opts)))
options-with_option m k j v false =
    options_of-append k m.opts (entries j v)
    ∙ rw (options_of-entries k j v) (ground (arith, append-nil (options_of k m.opts)))

-- `RemoveOption` leaves no value of the number, and all others.
pub options-remove_option :
    (m : Message) (k j : ℕ) → options (remove_option m j) k ≡ (if k == j then [] else options m k)
unfolding options remove_option
options-remove_option m k j = options_of-minus k j m.opts

options_of-insert :
    (k : ℕ) (o : Opt) (os : List Opt) → options_of k (insert o os) ≡ options_of k (o ∷ os)
unfolding options_of insert
options_of-insert k o [] = refl
options_of-insert k o (p ∷ ps) = ground (arith, options_of-insert k o ps)

-- Sorting changes no answer of `Options`: the values of a number keep their order.
pub options_of-stable_sort :
    (k : ℕ) (os : List Opt) → options_of k (stable_sort os) ≡ options_of k os
unfolding stable_sort options_of
options_of-stable_sort k [] = refl
options_of-stable_sort k (o ∷ os) =
    options_of-insert k o (stable_sort os) ∙ ground (arith, options_of-stable_sort k os)
