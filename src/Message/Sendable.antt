-- ===== src/Message/Sendable.antt =====
-- message.go and message_parse.go: the messages that can be written without a panic.
use coap.Base.{
  ℕ, ◌≡◌, refl, List, [], ◌∷◌, Option, none, some, ◌==◌, All, All-append, NoPanic, >>=-NoPanic,
  IsSafe, >>=-IsSafe, IsSafe-NoPanic, Bool-cases, inl, inr, true,
}
use coap.Base.Int.{ℤ}
use coap.Options.Order.{stable_sort-All}
use coap.Options.{
  opt_content_format, opt_uri_path, Bytes, Value, null, text, octets, media, int, uint16, int32,
  uint, uint32, texts, other, Opt, minus, stable_sort, to_bytes, value_bytes,
}
use coap.Message.{
  with_path, with_path_string, with_content_format, is_no_media, strip_slashes, split, slash,
  Message, remove_option, with_option, entries, with_size2,
}
use coap.Block.Travel.{minus-All}
use coap.Block.{BlockMetadata, with_block, with_block1, with_block2}
use coap.Wire.Size.{measure_header-eq}
use coap.Wire.{write_options, write_header, sort_opts, header_size, packet_size, marshal_binary}

-- A value that `toBytes` can write.
abbrev pub Encodes : Value → Type 0
Encodes null = ⊥
Encodes (texts ss) = ⊥
Encodes other = ⊥
Encodes _ = Unit {0}

abbrev pub IsSendableOpt : Opt → Type 0
IsSendableOpt o = Encodes o.value

abbrev pub IsSendable : Message → Type 0
IsSendable m = All IsSendableOpt m.opts

value_bytes-Encodes : (v : Value) → Encodes v → (b : Bytes) × (value_bytes v ≡ some b)
unfolding value_bytes
value_bytes-Encodes (text s) h = (_, refl)
value_bytes-Encodes (octets b) h = (_, refl)
value_bytes-Encodes (media i) h = (_, refl)
value_bytes-Encodes (int i) h = (_, refl)
value_bytes-Encodes (uint16 n) h = (_, refl)
value_bytes-Encodes (int32 i) h = (_, refl)
value_bytes-Encodes (uint n) h = (_, refl)
value_bytes-Encodes (uint32 n) h = (_, refl)
value_bytes-Encodes null h = absurd h
value_bytes-Encodes (texts ss) h = absurd h
value_bytes-Encodes other h = absurd h

write_options-IsSafe :
    (prev : ℕ) (os : List Opt)
    → All IsSendableOpt os
    → IsSafe (λ _. Unit {0}) (write_options prev os)
unfolding write_options to_bytes
write_options-IsSafe prev [] h = tt
write_options-IsSafe prev (o ∷ os) (h, hs) =
    let (b, e) = value_bytes-Encodes o.value h in
    rw (e, write_options, to_bytes)
      (>>=-IsSafe (λ _. Unit {0}) (λ _. Unit {0}) (write_options o.id os) _
        (write_options-IsSafe o.id os hs) (λ rest _. tt))

write_header-IsSafe :
    (m : Message) → IsSendable m → IsSafe (λ _. Unit {0}) (write_header (sort_opts m))
unfolding write_header sort_opts
write_header-IsSafe m h =
    >>=-IsSafe (λ _. Unit {0}) (λ _. Unit {0}) (write_options 0 (stable_sort m.opts)) _
      (write_options-IsSafe 0 (stable_sort m.opts) (stable_sort-All IsSendableOpt m.opts h))
      (λ b _. tt)

pub marshal_binary-IsSafe :
    (m : Message) → IsSendable m → IsSafe (λ (r : Message × Bytes). Unit {0}) (marshal_binary m)
unfolding marshal_binary
marshal_binary-IsSafe m h =
    >>=-IsSafe (λ _. Unit {0}) (λ _. Unit {0}) (write_header (sort_opts m)) _
      (write_header-IsSafe m h) (λ b _. tt)

pub marshal_binary-NoPanic :
    (m : Message) → IsSendable m → NoPanic (λ (r : Message × Bytes). Unit {0}) (marshal_binary m)
marshal_binary-NoPanic m h =
    IsSafe-NoPanic (λ (r : Message × Bytes). Unit {0}) (marshal_binary m)
      (marshal_binary-IsSafe m h)

header_size-NoPanic :
    (m : Message) → IsSendable m → NoPanic (λ (r : Message × ℕ). IsSendable r.0) (header_size m)
unfolding header_size sort_opts
header_size-NoPanic m h = rw (measure_header-eq (sort_opts m)) (
    >>=-NoPanic (λ _. Unit {0}) (λ (r : Message × ℕ). IsSendable r.0) (write_header (sort_opts m)) _
      (IsSafe-NoPanic (λ _. Unit {0}) (write_header (sort_opts m)) (write_header-IsSafe m h))
      (λ b _. stable_sort-All IsSendableOpt m.opts h))

pub packet_size-NoPanic :
    (m : Message) → IsSendable m → NoPanic (λ (r : Message × ℕ). IsSendable r.0) (packet_size m)
unfolding packet_size
packet_size-NoPanic m h = elim (Bool-cases (m.packet_size == 0)) [
  | inl e ↦ rw e (
      >>=-NoPanic (λ (r : Message × ℕ). IsSendable r.0) (λ (r : Message × ℕ). IsSendable r.0)
        (header_size m) _ (header_size-NoPanic m h) (λ r hr. hr))
  | inr e ↦ rw e h
]

pub remove_option-IsSendable : (m : Message) (k : ℕ) → IsSendable m → IsSendable (remove_option m k)
unfolding remove_option
remove_option-IsSendable m k h = minus-All IsSendableOpt k m.opts h

pub with_block-IsSendable :
    (m : Message) (bm : Option BlockMetadata)
    → IsSendable m
    → IsSendable (with_block1 m bm) × IsSendable (with_block2 m bm)
unfolding with_block1 with_block2 with_block with_option entries remove_option
with_block-IsSendable m none h =
    (minus-All IsSendableOpt _ m.opts h, minus-All IsSendableOpt _ m.opts h)
with_block-IsSendable m (some bm) h = (
  All-append IsSendableOpt (minus m.opts _) _ (minus-All IsSendableOpt _ m.opts h) (tt, tt),
  All-append IsSendableOpt (minus m.opts _) _ (minus-All IsSendableOpt _ m.opts h) (tt, tt),
)

pub with_size2-IsSendable : (m : Message) (n : ℤ) → IsSendable m → IsSendable (with_size2 m n)
unfolding with_size2 with_option entries remove_option
with_size2-IsSendable m n h =
    All-append IsSendableOpt (minus m.opts _) _ (minus-All IsSendableOpt _ m.opts h) (tt, tt)

pub with_option-IsSendable :
    (m : Message) (k : ℕ) (v : Value)
    → IsSendable m
    → All IsSendableOpt (entries k v)
    → IsSendable (with_option m k v true)
unfolding with_option remove_option
with_option-IsSendable m k v h hv =
    All-append IsSendableOpt (minus m.opts k) (entries k v) (minus-All IsSendableOpt k m.opts h) hv

texts-IsSendable : (k : ℕ) (ss : List Bytes) → All IsSendableOpt (entries k (texts ss))
unfolding entries
texts-IsSendable k [] = tt
texts-IsSendable k (s ∷ ss) = (tt, texts-IsSendable k ss)

pub with_path_string-IsSendable :
    (m : Message) (s : Bytes) → IsSendable m → IsSendable (with_path_string m s)
unfolding with_path_string with_path
with_path_string-IsSendable m [] h = h
with_path_string-IsSendable m (c ∷ s) h =
    with_option-IsSendable m opt_uri_path (texts (split slash (strip_slashes (c ∷ s)))) h
      (texts-IsSendable opt_uri_path (split slash (strip_slashes (c ∷ s))))

pub with_content_format-IsSendable :
    (m : Message) (af : ℤ) → IsSendable m → IsSendable (with_content_format m af)
unfolding with_content_format entries
with_content_format-IsSendable m af h = elim (Bool-cases (is_no_media af)) [
  | inl e ↦ rw e h
  | inr e ↦ rw e (with_option-IsSendable m opt_content_format (media af) h (tt, tt))
]
