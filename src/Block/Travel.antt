-- ===== src/Block/Travel.antt =====
-- message.go and message_parse.go: a block option that WithBlock1 or WithBlock2 sets, as the
-- receiver reads it by GetBlock1 or GetBlock2.
use coap.Base.{ℕ, ◌≡◌, refl, sym, ◌≢◌, ◌∙◌, true, List, [], ◌∷◌, Option, none, some, arith, All}
use coap.Options.{int, opt_size1, Bytes, Value, null, octets, Opt, opt_block1, opt_block2, minus}
use coap.Base.Int.{ℤ}
use coap.Message.{with_size1, Message, options, with_option, remove_option}
use coap.Message.Values.{
  option-first, options-with_option, options-remove_option, options_of-stable_sort, first,
}
use coap.Block.{
  BlockMetadata, block_decode, block_of, encode, get_block, get_block1, get_block2, with_block,
  with_block1, with_block2,
}
use coap.Block.Codec.{on_wire, block_decode-encode}
use coap.Wire.RoundTrip.{received}

get_block-options :
    (k : ℕ) (m : Message) {vs : List Value} → options m k ≡ vs → get_block m k ≡ block_of (first vs)
unfolding get_block
get_block-options k m e = rw (option-first m k, e)

block_of-encode : (b : BlockMetadata) → block_of (octets (encode b)) ≡ some (on_wire b)
unfolding block_of
block_of-encode b = rw (block_decode-encode b, block_of)

block_of-null : block_of null ≡ none
unfolding block_of block_decode
block_of-null = refl

abbrev pub reads : Option BlockMetadata → Option BlockMetadata
reads none = none
reads (some b) = some (on_wire b)

options-with_block_other :
    (k j : ℕ) (m : Message) (bm : Option BlockMetadata)
    → k ≢ j
    → options (with_block j m bm) k ≡ options m k
unfolding with_block
options-with_block_other k j m none ne = ground (arith, options-remove_option m k j)
options-with_block_other k j m (some b) ne =
    ground (arith, options-with_option m k j (octets (encode b)) true)

get_block-with_block_same :
    (k : ℕ) (m : Message) (bm : Option BlockMetadata) → get_block (with_block k m bm) k ≡ reads bm
unfolding with_block
get_block-with_block_same k m none =
    get_block-options k (remove_option m k) {vs = []} (options-remove_option m k k ∙ ground arith)
    ∙ block_of-null
get_block-with_block_same k m (some b) =
    get_block-options k (with_option m k (octets (encode b)) true) {vs = octets (encode b) ∷ []}
      (options-with_option m k k (octets (encode b)) true ∙ ground arith)
    ∙ block_of-encode b

-- `GetBlock1` reads what `WithBlock1` set, as far as the bytes hold it, and nil where nil was set;
-- so for `GetBlock2` and `WithBlock2`; and setting the one leaves the other as it was.
pub get_block-with_block :
    (m : Message) (bm : Option BlockMetadata)
    → (get_block1 (with_block1 m bm) ≡ reads bm)
      × (get_block2 (with_block2 m bm) ≡ reads bm)
      × (get_block2 (with_block1 m bm) ≡ get_block2 m)
      × (get_block1 (with_block2 m bm) ≡ get_block1 m)
unfolding get_block1 get_block2 with_block1 with_block2
get_block-with_block m bm = (
  get_block-with_block_same opt_block1 m bm,
  get_block-with_block_same opt_block2 m bm,
  get_block-options opt_block2 _ (options-with_block_other opt_block2 opt_block1 m bm (omega arith))
      ∙ sym (get_block-options opt_block2 m refl),
  get_block-options opt_block1 _ (options-with_block_other opt_block1 opt_block2 m bm (omega arith))
      ∙ sym (get_block-options opt_block1 m refl),
)

pub minus-All : (P : Opt → Type 0) (k : ℕ) (os : List Opt) → All P os → All P (minus os k)
unfolding minus
minus-All P k [] h = tt
minus-All P k (o ∷ os) (h, hs) = ground (arith, minus-All P k os hs)

-- What the receiver's `Options` gives is what the sender's gives.
pub options-received :
    (m : Message) (bytes : Bytes) (k : ℕ) → options (received m bytes) k ≡ options m k
unfolding options
options-received m bytes k = options_of-stable_sort k m.opts

-- A size option does not touch the block options.
pub get_block-with_option :
    (k j : ℕ) (m : Message) (v : Value)
    → k ≢ j
    → get_block (with_option m j v true) k ≡ get_block m k
get_block-with_option k j m v ne =
    get_block-options k _ {vs = options m k} (options-with_option m k j v true ∙ ground arith)
    ∙ sym (get_block-options k m refl)

pub get_block1-with_size1 : (m : Message) (n : ℤ) → get_block1 (with_size1 m n) ≡ get_block1 m
unfolding get_block1 with_size1
get_block1-with_size1 m n = get_block-with_option opt_block1 opt_size1 m (int n) (omega arith)

pub get_block1-none : (m : Message) → options m opt_block1 ≡ [] → get_block1 m ≡ none
unfolding get_block1
get_block1-none m e = get_block-options opt_block1 m e ∙ block_of-null

pub get_block2-none : (m : Message) → options m opt_block2 ≡ [] → get_block2 m ≡ none
unfolding get_block2
get_block2-none m e = get_block-options opt_block2 m e ∙ block_of-null
