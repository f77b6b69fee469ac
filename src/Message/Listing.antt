-- ===== src/Message/Listing.antt =====
-- message.go: all options by name, and the setters of single fields.
use Prim.Native.String.{String}
use coap.Base.{ℕ, List, [], ◌∷◌, Option, none, some}
use coap.Base.Maps.{load, store, Key}
use coap.Options.{Bytes, Value, Opt, option_def}
use coap.Message.{Message}

-- A value of the map: that of an option, or a slice of several.
pub data Slot : Type 0 where
  single : Value → Slot
  several : List Value → Slot

module _ ⦃names : Key String⦄ where
  -- A round of `OptionsMap`: the slice that a further value is appended to is a copy, which is not
  -- stored again.
  unfoldable pub add_slot : List (String × Slot) → Opt → List (String × Slot)
  add_slot ret v =
      let name = (option_def v.id).name in
      elim (load name ret) [
        | none ↦ store name (single v.value) ret
        | some slot ↦ elim slot [
          | single ro ↦ store name (several (ro ∷ v.value ∷ [])) ret
          | several ra ↦ ret
        ]
      ]

  unfoldable pub add_slots : List (String × Slot) → List Opt → List (String × Slot)
  unfolding add_slot
  add_slots ret [] = ret
  add_slots ret (v ∷ opts) = add_slots (add_slot ret v) opts

  -- `OptionsMap`; `none` is nil.
  unfoldable pub options_map : Message → Option (List (String × Slot))
  unfolding add_slots
  options_map m = elim (add_slots [] m.opts) [ [] ↦ none | e ∷ ret ↦ some (e ∷ ret) ]

unfoldable pub with_token : Message → Bytes → Message
with_token m token = record m { token = token }

unfoldable pub with_payload : Message → Bytes → Message
with_payload m payload = record m { payload = payload }

unfoldable pub with_type : Message → ℕ → Message
with_type m ty = record m { type = ty }

unfoldable pub with_code : Message → ℕ → Message
with_code m code = record m { code = code }
