-- ===== src/Message/Paths.antt =====
-- message.go: paths as options and as text.
use coap.Base.{
  ℕ, zero, suc, ◌≢◌, replicate, ◌≡◌, refl, ap, ◌∙◌, true, List, [], ◌∷◌, ◌++◌, some, append-nil,
  append_assoc, ◌==◌, Bool-cases, inl, inr, arith, map,
}
use coap.Options.{Bytes, text, texts, opt_uri_path}
use coap.Message.{
  Message, assert_strings, option_strings, with_path, path, split_from, split, join, slash,
  path_string, strip_slashes, with_path_string,
}
use coap.Message.Values.{options-with_option}

pub assert_strings-texts : (ss : List Bytes) → assert_strings (map (λ s. text s) ss) ≡ some ss
unfolding assert_strings
assert_strings-texts [] = refl
assert_strings-texts (s ∷ ss) = rw (assert_strings-texts ss)

-- The path that `WithPath` set is the one that `Path` reads.
pub path-with_path : (m : Message) (ss : List Bytes) → path (with_path m ss) ≡ some ss
unfolding path with_path option_strings
path-with_path m ss =
    rw (options-with_option m opt_uri_path opt_uri_path (texts ss) true) (assert_strings-texts ss)

split_from-nonempty :
    (sep : ℕ) (acc s : Bytes) → (t : Bytes) × (ts : List Bytes) × (split_from sep acc s ≡ t ∷ ts)
unfolding split_from
split_from-nonempty sep acc [] = (acc, [], refl)
split_from-nonempty sep acc (c ∷ s) = elim (Bool-cases (c == sep)) [
  | inl e ↦ (acc, split_from sep [] s, rw e)
  | inr e ↦ let (t, ts, h) = split_from-nonempty sep (acc ++ (c ∷ [])) s in (t, ts, rw e h)
]

join-cons :
    (sep : ℕ) (acc : Bytes) (ss : List Bytes) {t : Bytes} {ts : List Bytes}
    → ss ≡ t ∷ ts
    → join sep (acc ∷ ss) ≡ acc ++ (sep ∷ join sep ss)
unfolding join
join-cons sep acc ss e = rw e

-- Joining what `strings.Split` gave, at the same separator, gives the text back.
pub join-split_from : (sep : ℕ) (acc s : Bytes) → join sep (split_from sep acc s) ≡ acc ++ s
unfolding split_from
join-split_from sep acc [] = unfold join in rw append-nil
join-split_from sep acc (c ∷ s) = elim (Bool-cases (c == sep)) [
  | inl e ↦
      let (t, ts, h) = split_from-nonempty sep [] s in
      rw e (join-cons sep acc (split_from sep [] s) h ∙ ground (arith, join-split_from sep [] s))
  | inr e ↦ rw e (join-split_from sep (acc ++ (c ∷ [])) s ∙ append_assoc acc (c ∷ []) s)
]

path_string-stripped :
    (m : Message) (c : ℕ) (s : Bytes)
    → path_string (with_path_string m (c ∷ s)) ≡ some (strip_slashes (c ∷ s))
unfolding path_string with_path_string split
path_string-stripped m c s =
    rw (path-with_path m (split_from slash [] (strip_slashes (c ∷ s))), path_string)
      (ap some (join-split_from slash [] (strip_slashes (c ∷ s))))

strip_slashes-other :
    (k c : ℕ) (s : Bytes) → c ≢ slash → strip_slashes (replicate k slash ++ (c ∷ s)) ≡ c ∷ s
unfolding strip_slashes
strip_slashes-other zero c [] ne = ground arith
strip_slashes-other zero c (d ∷ s) ne = ground arith
strip_slashes-other (suc zero) c s ne = strip_slashes-other zero c s ne
strip_slashes-other (suc (suc k)) c s ne = strip_slashes-other (suc k) c s ne

strip_slashes-only : (k : ℕ) → strip_slashes (replicate (suc k) slash) ≡ slash ∷ []
unfolding strip_slashes
strip_slashes-only zero = refl
strip_slashes-only (suc k) = strip_slashes-only k

-- `WithPathString` of a text that begins with another byte than a slash, with any number of slashes
-- in front of it: `PathString` reads the text without those slashes. Of slashes only, at least one,
-- it reads one slash.
pub path_string-with_path_string :
    (m : Message) (k c : ℕ) (s : Bytes)
    → c ≢ slash
    → (path_string (with_path_string m (replicate k slash ++ (c ∷ s))) ≡ some (c ∷ s))
      × (path_string (with_path_string m (replicate (suc k) slash)) ≡ some (slash ∷ []))
path_string-with_path_string m zero c s ne = (
  path_string-stripped m c s ∙ ap some (strip_slashes-other zero c s ne),
  path_string-stripped m slash [] ∙ ap some (strip_slashes-only zero),
)
path_string-with_path_string m (suc k) c s ne = (
  path_string-stripped m slash (replicate k slash ++ (c ∷ s))
      ∙ ap some (strip_slashes-other (suc k) c s ne),
  path_string-stripped m slash (replicate (suc k) slash) ∙ ap some (strip_slashes-only (suc k)),
)
