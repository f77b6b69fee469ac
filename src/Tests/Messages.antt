-- ===== src/Tests/Messages.antt =====
-- The accessors of message.go and the names of constants.go at concrete input.
use coap.Base.{arith, ◌≡◌, refl, [], ◌∷◌, none, some, bytes_eq}
use coap.Base.Int.{pos, negsuc}
use coap.Base.Maps.{load, store, string_key}
use coap.Message.{Message, new_message, options, with_option, slash, split}
use coap.Message.Queries.{
  Vars, IsPlain, has, add_query, parse_query, with_query, parse_query-with_query,
}
use coap.Message.Locations.{
  with_location_path_string, location_path_string, with_location_path_string_cases,
}
use coap.Names.{codes, number_string, media_name, media_in}

-- `a=1` and `b`.
abbrev queries : Vars
queries = (b'a' ∷ [], b'1' ∷ []) ∷ (b'b' ∷ [], []) ∷ []

queries-IsPlain : IsPlain queries
unfolding load has bytes_eq
queries-IsPlain = (refl, refl, refl, (refl, refl, refl, tt))

parse_query-with_query_example :
    load (b'a' ∷ []) (parse_query (with_query new_message queries)).1 ≡ load (b'a' ∷ []) queries
unfolding options
parse_query-with_query_example =
    parse_query-with_query new_message queries (b'a' ∷ []) queries-IsPlain refl refl

with_location_path_string_cases_example :
    (with_location_path_string new_message (slash ∷ slash ∷ []) ≡ none)
    × ((m' : Message) × (with_location_path_string new_message (slash ∷ slash ∷ b'x' ∷ slash ∷ [])
          ≡ some m')
        × (location_path_string m' ≡ some (b'x' ∷ slash ∷ [])))
with_location_path_string_cases_example =
    with_location_path_string_cases new_message 2 b'x' (slash ∷ []) (omega arith)

-- A value with a `=` of its own is not told apart from its key.
query_of_three :
    (parse_query (with_query new_message ((b'k' ∷ [], b'a' ∷ b'=' ∷ []) ∷ []))).1
    ≡ (b'k' ∷ b'=' ∷ b'a' ∷ b'=' ∷ [], []) ∷ []
unfolding parse_query with_query split load with_option options add_query store
query_of_three = refl

not_found_string : number_string 132 ≡ codes "4.04"
unfolding number_string
not_found_string = refl

unknown_media : media_name (pos 123) ≡ codes "unknown-123"
unfolding media_name media_in
unknown_media = refl

negative_media : media_name (negsuc 9) ≡ codes "unknown--10"
unfolding media_name
negative_media = refl
