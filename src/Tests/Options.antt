-- ===== src/Tests/Options.antt =====
-- message_options.go and message.go at concrete options.
use mathlib.Core.List.{Perm}
use coap.Base.{ℕ, ◌≡◌, refl, [], ◌∷◌, some, true, arith, ◌==◌, if◌then◌else◌, ◌++◌}
use coap.Base.Int.{pos}
use coap.Options.{Opt, text, media, option_def, find_def, encode_int, stable_sort}
use coap.Options.Values.{IsCanonical}
use coap.Options.Order.{IsSortedFrom, with_id, stable_sort_lem}
use coap.Message.{new_message, options, with_option, path_string, with_path_string, strip_slashes}
use coap.Message.Values.{options-with_option, values}
use coap.Message.Paths.{path_string-with_path_string}

abbrev content_format_json : Opt
content_format_json = record { id = 12; value = media (pos 50) }

abbrev uri_path_a : Opt
uri_path_a = record { id = 11; value = text (b'a' ∷ []) }

encode_300 : encode_int 300 ≡ 1 ∷ 44 ∷ []
unfolding encode_int
encode_300 = refl

-- A zero is written as one byte.
encode_0 : encode_int 0 ≡ 0 ∷ []
unfolding encode_int
encode_0 = refl

content_format_json-IsCanonical : IsCanonical content_format_json
unfolding option_def find_def encode_int
content_format_json-IsCanonical = ground arith

sort_two :
    stable_sort (content_format_json ∷ uri_path_a ∷ []) ≡ uri_path_a ∷ content_format_json ∷ []
unfolding stable_sort
sort_two = refl

stable_sort_lem_example :
    IsSortedFrom 0 (stable_sort (content_format_json ∷ uri_path_a ∷ []))
    × Perm
        (stable_sort (content_format_json ∷ uri_path_a ∷ []))
        (content_format_json ∷ uri_path_a ∷ [])
    × ((k : ℕ)
        → with_id k (stable_sort (content_format_json ∷ uri_path_a ∷ []))
          ≡ with_id k (content_format_json ∷ uri_path_a ∷ []))
stable_sort_lem_example = stable_sort_lem (content_format_json ∷ uri_path_a ∷ [])

options-with_option_example : options (with_option new_message 11 (text (b'x' ∷ [])) true) 11 ≡ (
    if 11 == 11
    then (if true then [] else options new_message 11) ++ values (text (b'x' ∷ []))
    else options new_message 11)
options-with_option_example = options-with_option new_message 11 11 (text (b'x' ∷ [])) true

path_string-with_path_string_example :
    (path_string (with_path_string new_message (b'/' ∷ b'a' ∷ b'/' ∷ b'b' ∷ []))
      ≡ some (b'a' ∷ b'/' ∷ b'b' ∷ []))
    × (path_string (with_path_string new_message (b'/' ∷ b'/' ∷ [])) ≡ some (b'/' ∷ []))
path_string-with_path_string_example =
    path_string-with_path_string new_message 1 b'a' (b'/' ∷ b'b' ∷ []) (omega arith)

strip_one : strip_slashes (b'/' ∷ b'/' ∷ b'a' ∷ []) ≡ b'a' ∷ []
unfolding strip_slashes
strip_one = refl
