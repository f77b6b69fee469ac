-- ===== src/Names/Declared.antt =====
-- constants.go and message_options.go: the numbers that the package declares for its callers, and the
-- tables of names and formats, which are written out apart from them.
use Prim.Native.String.{String}
use coap.Base.{
  ltb, length, arith, ◌≤◌, ℕ, Bool, true, ◌&&◌, false, not, List, [], ◌∷◌, ◌++◌, take, bytes_eq,
  ◌≡◌, refl,
}
use coap.Base.Int.{ℤ, pos, negsuc}
use coap.Options.{option_def, find_def, ValueFormat, value_unknown}
use coap.Names.{
  type_name, code_name, name_in, unknown_name, code_names, media_name, media_in, codes,
}

-- `COAPType`
abbrev pub declared_types : List ℕ
declared_types = 0 ∷ 1 ∷ 2 ∷ 3 ∷ []

-- `COAPCode`: from CodeEmpty to CodeIPatch.
abbrev pub request_codes : List ℕ
request_codes = 0 ∷ 1 ∷ 2 ∷ 3 ∷ 4 ∷ 5 ∷ 6 ∷ 7 ∷ []

-- `COAPCode`: from RspCodeCreated to RspCodeProxyingNotSupported.
abbrev pub response_codes : List ℕ
response_codes =
    65 ∷ 66 ∷ 67 ∷ 68 ∷ 69 ∷ 95 ∷ 128 ∷ 129 ∷ 130 ∷ 131 ∷ 132 ∷ 133 ∷ 134 ∷ 136 ∷ 140 ∷ 141 ∷ 143
    ∷ 160 ∷ 161 ∷ 162 ∷ 163 ∷ 164 ∷ 165 ∷ []

-- `MediaType`: from None to AppLwm2mJSON.
abbrev pub media_types : List ℤ
media_types =
    negsuc 0
    ∷ pos 0
    ∷ pos 40
    ∷ pos 41
    ∷ pos 42
    ∷ pos 47
    ∷ pos 50
    ∷ pos 60
    ∷ pos 112
    ∷ pos 11542
    ∷ pos 11543
    ∷ []

-- `OptionID`: from OptIfMatch to OptSize1.
abbrev pub option_ids : List ℕ
option_ids =
    1 ∷ 3 ∷ 4 ∷ 5 ∷ 6 ∷ 7 ∷ 8 ∷ 11 ∷ 12 ∷ 14 ∷ 15 ∷ 17 ∷ 20 ∷ 23 ∷ 27 ∷ 28 ∷ 35 ∷ 39 ∷ 60 ∷ []

abbrev all_of {ℓ} : {A : Type ℓ} → (A → Bool) → List A → Bool
all_of p [] = true
all_of p (x ∷ xs) = p x && all_of p xs

abbrev has_format : ValueFormat → Bool
has_format value_unknown = false
has_format _ = true

-- Every declared type has a name of its own.
types_named : all_of (λ t. not (bytes_eq (type_name t) (unknown_name t))) declared_types ≡ true
unfolding type_name name_in unknown_name bytes_eq
types_named = refl

-- Every declared code has a name of its own.
codes_named :
    all_of (λ c. not (bytes_eq (code_name c) (unknown_name c))) (request_codes ++ response_codes)
    ≡ true
unfolding code_name name_in unknown_name bytes_eq
codes_named = refl

-- Every declared option has a format, so it is not dropped by its number alone.
options_defined : all_of (λ o. has_format (option_def o).value_format) option_ids ≡ true
unfolding option_def find_def
options_defined = refl

-- Every declared media type has a name that does not begin like that of an unknown one.
media_named :
    all_of (λ m. not (bytes_eq (take 7 (media_name m)) (codes "unknown"))) media_types ≡ true
unfolding media_name media_in bytes_eq
media_named = refl

abbrev no_empty : List (ℕ × String) → Bool
no_empty [] = true
no_empty ((k, s) ∷ names) = ltb 0 (length (codes s)) && no_empty names

length-name_in :
    (names : List (ℕ × String)) (n : ℕ) → no_empty names ≡ true → 1 ≤ length (name_in names n)
unfolding name_in unknown_name
length-name_in [] n h = omega arith
length-name_in ((k, s) ∷ names) n h = ground (arith, length-name_in names n)

-- No code has an empty name, declared or not.
pub length-code_name : (n : ℕ) → 1 ≤ length (code_name n)
unfolding code_name
length-code_name n = length-name_in code_names n refl
