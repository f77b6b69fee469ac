-- ===== src/Message/Read.antt =====
-- message.go and message_parse.go: the messages that were read from a datagram, their path and their
-- Accept option.
use mathlib.Core.Path.{subst}
use coap.Base.{ℕ, ◌≡◌, refl, List, [], ◌∷◌, some, ◌==◌, All, arith, Bool-cases, inl, inr}
use coap.Base.Int.{ℤ}
use coap.Options.{
  Bytes, Value, null, text, octets, media, int, uint16, int32, uint, uint32, texts, other, Opt,
  option_def, OptionDef, opt_uri_path, opt_accept, find_def,
}
use coap.Options.Values.{HasFormat}
use coap.Message.{
  join, slash, Message, path, path_string, option_strings, assert_strings, options, options_of,
  option, option_of, accept, assert_media,
}
use coap.Wire.Safety.{IsParsed}
use coap.Message.Sendable.{Encodes, IsSendableOpt}

abbrev pub IsRead : Message → Type 0
IsRead m = All IsParsed m.opts

HasFormat-Encodes : (d : OptionDef) (id : ℕ) (v : Value) → HasFormat d id v → Encodes v
HasFormat-Encodes d id (text s) h = tt
HasFormat-Encodes d id (octets b) h = tt
HasFormat-Encodes d id (media i) h = tt
HasFormat-Encodes d id (uint32 n) h = tt
HasFormat-Encodes d id (int i) h = tt
HasFormat-Encodes d id (uint16 n) h = tt
HasFormat-Encodes d id (int32 i) h = tt
HasFormat-Encodes d id (uint n) h = tt
HasFormat-Encodes d id null h = h
HasFormat-Encodes d id (texts ss) h = h
HasFormat-Encodes d id other h = h

-- What was read can be written.
pub All-IsParsed : (os : List Opt) → All IsParsed os → All IsSendableOpt os
All-IsParsed [] h = tt
All-IsParsed (o ∷ os) ((hi, hv), hs) =
    (HasFormat-Encodes (option_def o.id) o.id o.value hv, All-IsParsed os hs)

-- The values of the path are texts, and that of Accept is a media type or missing.
path_value : (v : Value) → HasFormat (option_def 11) 11 v → (s : Bytes) × (v ≡ text s)
unfolding option_def find_def
path_value (text s) h = (s, refl)
path_value (octets b) (inl e, lo, hi) = cc
path_value (octets b) (inr e, lo, hi) = cc
path_value (media i) h = cc
path_value (uint32 n) h = cc
path_value (int i) h = absurd h
path_value (uint16 n) h = absurd h
path_value (int32 i) h = absurd h
path_value (uint n) h = absurd h
path_value null h = absurd h
path_value (texts ss) h = absurd h
path_value other h = absurd h

accept_value : (v : Value) → HasFormat (option_def 17) 17 v → (i : ℤ) × (v ≡ media i)
unfolding option_def find_def
accept_value (media i) h = (i, refl)
accept_value (uint32 n) (e, nc, na) = absurd (na refl)
accept_value (text s) h = cc
accept_value (octets b) (inl e, lo, hi) = cc
accept_value (octets b) (inr e, lo, hi) = cc
accept_value (int i) h = absurd h
accept_value (uint16 n) h = absurd h
accept_value (int32 i) h = absurd h
accept_value (uint n) h = absurd h
accept_value null h = absurd h
accept_value (texts ss) h = absurd h
accept_value other h = absurd h

assert_strings-IsRead :
    (os : List Opt)
    → All IsParsed os
    → (ss : List Bytes) × (assert_strings (options_of opt_uri_path os) ≡ some ss)
unfolding assert_strings options_of
assert_strings-IsRead [] h = ([], refl)
assert_strings-IsRead (o ∷ os) ((hi, hv), hs) =
    let (ss, e) = assert_strings-IsRead os hs in
    elim (Bool-cases (opt_uri_path == o.id)) [
      | inl z ↦
          let id : o.id ≡ 11 = ground arith in
          let (s, ev) =
            path_value o.value (subst (λ k. HasFormat (option_def k) k o.value) id hv) in
          (s ∷ ss, rw z (rw (ev, assert_strings) (rw e refl)))
      | inr z ↦ (ss, rw z e)
    ]

pub path_string-IsRead : (m : Message) → IsRead m → (p : Bytes) × (path_string m ≡ some p)
unfolding path_string path option_strings options
path_string-IsRead m h =
    let (ss, e) = assert_strings-IsRead m.opts h in
    (join slash ss, rw (e, path_string, path, option_strings, options) refl)

accept_of-IsRead :
    (os : List Opt)
    → All IsParsed os
    → (af : ℤ) × (assert_media (option_of opt_accept os) ≡ some af)
unfolding assert_media option_of
accept_of-IsRead [] h = (_, refl)
accept_of-IsRead (o ∷ os) ((hi, hv), hs) =
    let (af, e) = accept_of-IsRead os hs in
    elim (Bool-cases (opt_accept == o.id)) [
      | inl z ↦
          let id : o.id ≡ 17 = ground arith in
          let (i, ev) =
            accept_value o.value (subst (λ k. HasFormat (option_def k) k o.value) id hv) in
          (i, rw z (rw ev refl))
      | inr z ↦ (af, rw z e)
    ]

pub accept-IsRead : (m : Message) → IsRead m → (af : ℤ) × (accept m ≡ some af)
unfolding accept option
accept-IsRead m h = accept_of-IsRead m.opts h
