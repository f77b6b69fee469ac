-- ===== src/Options/Table.antt =====
-- The table optionDefs of message_options.go: what holds of every entry.
use coap.Base.{ℕ, ◌≤◌, ◌≡◌, ◌==◌, Bool-cases, inl, inr, List, [], ◌∷◌, All, arith}
use coap.Options.{OptionDef, value_uint, option_defs, no_def, find_def, option_def}

-- What holds of every entry and of the zero value holds of every lookup.
find_def-All {κ} :
    (P : OptionDef → Type κ) (ds : List (ℕ × OptionDef)) (id : ℕ)
    → P no_def
    → All (λ (e : ℕ × OptionDef). P e.1) ds
    → P (find_def ds id)
unfolding find_def
find_def-All P [] id z h = z
find_def-All P ((k, d) ∷ ds) id z h = elim (Bool-cases (k == id)) [
  | inl e ↦ rw e h.0
  | inr e ↦ rw e (find_def-All P ds id z h.1)
]

-- A number never takes more than four bytes.
IsNarrow : OptionDef → Type 0
IsNarrow d = d.value_format ≡ value_uint → d.max_len ≤ 4

pub option_def-max_len :
    (id : ℕ) → (option_def id).value_format ≡ value_uint → (option_def id).max_len ≤ 4
unfolding option_def IsNarrow
option_def-max_len id = find_def-All IsNarrow option_defs id (ground arith) (ground arith)

-- No option of the table is longer than a Proxy-Uri.
IsShort : OptionDef → Type 0
IsShort d = d.max_len ≤ 1034

pub option_def-max_len_le : (id : ℕ) → (option_def id).max_len ≤ 1034
unfolding option_def IsShort
option_def-max_len_le id = find_def-All IsShort option_defs id (omega arith) (omega arith)
