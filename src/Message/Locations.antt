-- ===== src/Message/Locations.antt =====
-- message.go: the location path of a response.
use coap.Base.{
  ℕ, zero, suc, ◌≡◌, ◌≢◌, refl, ap, true, List, [], ◌∷◌, ◌++◌, Option, none, some, ◌==◌,
  if◌then◌else◌, arith, replicate,
}
use coap.Options.{Bytes, texts, opt_location_path}
use coap.Message.{Message, with_option, option_strings, split, join, slash}
use coap.Message.Values.{options-with_option}
use coap.Message.Paths.{assert_strings-texts, join-split_from}

unfoldable pub with_location_path : Message → List Bytes → Message
with_location_path m ss = with_option m opt_location_path (texts ss) true

-- `for path[0] == '/' { path = path[1:] }`; `none` is the panic behind the end.
unfoldable pub strip_location : Bytes → Option Bytes
strip_location [] = none
strip_location (c ∷ s) = let rest = strip_location s in if c == slash then rest else some (c ∷ s)

-- `WithLocationPathString`; `none` is its panic.
unfoldable pub with_location_path_string : Message → Bytes → Option Message
unfolding strip_location with_location_path
with_location_path_string m path = elim (strip_location path) [
  | none ↦ none
  | some s ↦ some (with_location_path m (split slash s))
]

unfoldable pub location_path : Message → Option (List Bytes)
location_path m = option_strings m opt_location_path

unfoldable pub location_path_string : Message → Option Bytes
unfolding location_path
location_path_string m = elim (location_path m) [ none ↦ none | some ss ↦ some (join slash ss) ]

location_path_string-with_location_path :
    (m : Message) (s : Bytes) → location_path_string (with_location_path m (split slash s)) ≡ some s
unfolding location_path_string location_path with_location_path option_strings split
location_path_string-with_location_path m s =
    let ss = split slash s in
    let stored : location_path (with_location_path m ss) ≡ some ss =
      rw (options-with_option m opt_location_path opt_location_path (texts ss) true)
        (assert_strings-texts ss) in
    rw (stored, location_path_string) (ap some (join-split_from slash [] s))

strip_location-slashes : (k : ℕ) → strip_location (replicate k slash) ≡ none
unfolding strip_location
strip_location-slashes zero = refl
strip_location-slashes (suc k) = strip_location-slashes k

strip_location-stripped :
    (k c : ℕ) (s : Bytes) → c ≢ slash → strip_location (replicate k slash ++ (c ∷ s)) ≡ some (c ∷ s)
unfolding strip_location
strip_location-stripped zero c s ne = ground arith
strip_location-stripped (suc k) c s ne = strip_location-stripped k c s ne

-- `WithLocationPathString` panics on a text of any number of slashes only, none included. On slashes,
-- or none, in front of a text that begins with another byte, it returns a message, in which
-- `LocationPathString` reads that text without the slashes.
pub with_location_path_string_cases :
    (m : Message) (k c : ℕ) (s : Bytes)
    → c ≢ slash
    → (with_location_path_string m (replicate k slash) ≡ none)
      × ((m' : Message) × (with_location_path_string m (replicate k slash ++ (c ∷ s)) ≡ some m')
          × (location_path_string m' ≡ some (c ∷ s)))
unfolding with_location_path_string
with_location_path_string_cases m k c s ne = (
  rw (strip_location-slashes k, with_location_path_string) refl,
  (
    with_location_path m (split slash (c ∷ s)),
    rw (strip_location-stripped k c s ne, with_location_path_string) refl,
    location_path_string-with_location_path m (c ∷ s),
  ),
)
