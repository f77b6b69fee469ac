-- ===== src/Client/Upload.antt =====
-- send.go: the first loop of Send gives a peer that takes the blocks in order the whole payload.
use mathlib.Core.Path.{subst}
use coap.Base.{
  ℕ, zero, suc, ◌+◌, ◌*◌, ◌^◌, ◌≤◌, ◌<◌, ◌≡◌, refl, ap, ap₂, ◌∙◌, true, false, ◌++◌, none, some,
  length, take, drop, ok, arith, ltb, Bool-cases, inl, inr, take-append-take, take-append-drop,
}
use coap.Options.{Bytes}
use coap.Message.{Message}
use coap.Block.{BlockMetadata, block_init, get_block1, get_block2}
use coap.Block.Codec.{IsBlockSize}
use coap.Client.{part, send_blocks, SendOptions, addressed, send_message}
use coap.Transfer.{requires_blockwise}
use coap.Observe.{Sender}
use coap.Client.Peer.{Collector}
use coap.Client.Parts.{
  payload-part, get_block1-part, check_part-taken, cut_more, cut_last, check_part-last,
}

module _ {S : Type 0} (send : Sender S) (sz : ℕ) (c : Collector send sz) (whole : Bytes)
    (format : IsBlockSize sz) where
  open c use {IsFor, Ready, Has, Done}

  abbrev Delivers : ℕ → ℕ → S → Message → Type 0
  Delivers rounds num s m =
      (s' : S) × (m' : Message) × (rsp : Message) × (send_blocks send rounds whole sz num s m
        ≡ (s', m', ok (some rsp)))
      × Done s' whole rsp
      × IsFor m'

  abbrev middle : Message → ℕ → Message
  middle m num = part m whole (take sz (drop (num * sz) whole)) true sz num

  get_block1-middle :
      (m : Message) (num : ℕ)
      → num < 2 ^ 20
      → get_block1 (middle m num) ≡ some (block_init num true sz)
  get_block1-middle m num = get_block1-part m whole _ true sz num format

  send_blocks-step :
      (rounds num : ℕ) (s s1 : S) (m m1 rsp : Message)
      → num * sz + sz < length whole
      → send s (middle m num) ≡ (s1, m1, ok (some rsp))
      → rsp.code ≡ 95
      → get_block1 rsp ≡ some (block_init num true sz)
      → Delivers rounds (suc num) s1 m1
      → Delivers (suc rounds) num s m
  unfolding send_blocks
  send_blocks-step rounds num s s1 m m1 rsp lt es hc hb (s', m', rsp', e, d, f) = (
    s',
    m',
    rsp',
    rw (cut_more whole sz num lt, send_blocks) (rw es (rw (check_part-taken rsp num sz hc hb) e)),
    d,
    f,
  )

  abbrev final : Message → ℕ → Message
  final m num = part m whole (drop (num * sz) whole) false sz num

  send_blocks-end :
      (rounds num : ℕ) (s s1 : S) (m m1 rsp : Message) (block1 : BlockMetadata)
      → num * sz ≤ length whole
      → length whole ≤ num * sz + sz
      → send s (final m num) ≡ (s1, m1, ok (some rsp))
      → get_block1 rsp ≡ some block1
      → send_blocks send (suc rounds) whole sz num s m ≡ (s1, m1, ok (some rsp))
  unfolding send_blocks
  send_blocks-end rounds num s s1 m m1 rsp block1 lo hi es hb =
      rw (cut_last whole sz num lo hi, send_blocks)
        (rw es (rw (check_part-last rsp block1 sz hb) refl))

  send_blocks-last :
      (rounds n : ℕ) (s : S) (m : Message) (b : Bytes)
      → Has s n b
      → IsFor m
      → b ≡ take (suc n * sz) whole
      → suc n * sz ≤ length whole
      → length whole ≤ suc n * sz + sz
      → suc n < 2 ^ 20
      → Delivers (suc rounds) (suc n) s m
  send_blocks-last rounds n s m b h hf eb lo hi hn =
      let rest = drop (suc n * sz) whole in
      let (s1, m1, rsp, block1, es, hb, hf1, hd) =
        c.last s (final m (suc n)) n b hn h (c.part_is_for m whole rest false (suc n) hf)
          (get_block1-part m whole rest false sz (suc n) format hn) in
      let all : b ++ (final m (suc n)).payload ≡ whole =
        ap₂ (λ x y. x ++ y) eb (payload-part m whole rest false sz (suc n))
        ∙ take-append-drop (suc n * sz) whole in
      (
        s1,
        m1,
        rsp,
        send_blocks-end rounds (suc n) s s1 m m1 rsp block1 lo hi es hb,
        subst (λ (x : Bytes). Done s1 x rsp) all hd,
        hf1,
      )

  send_blocks-from :
      (rounds n : ℕ) (s : S) (m : Message) (b : Bytes)
      → Has s n b
      → IsFor m
      → b ≡ take (suc n * sz) whole
      → suc n * sz < length whole
      → length whole ≤ suc n * sz + rounds * sz
      → suc n + rounds ≤ 2 ^ 20
      → Delivers rounds (suc n) s m
  send_blocks-from zero n s m b h hf eb lo hi hn = absurd (omega arith)
  send_blocks-from (suc rounds) n s m b h hf eb lo hi hn =
      elim (Bool-cases (ltb (suc n * sz + sz) (length whole))) [
        | inr e ↦ send_blocks-last rounds n s m b h hf eb (omega arith) (ground arith) (omega arith)
        | inl e ↦
            let chunk = take sz (drop (suc n * sz) whole) in
            let (s1, m1, rsp, es, hc, hb, hf1, h1) =
              c.next s (middle m (suc n)) n b (omega arith) h
                (c.part_is_for m whole chunk true (suc n) hf)
                (get_block1-middle m (suc n) (omega arith)) in
            let taken : b ++ (middle m (suc n)).payload ≡ take (suc (suc n) * sz) whole =
              ap₂ (λ x y. x ++ y) eb (payload-part m whole chunk true sz (suc n))
              ∙ take-append-take (suc n * sz) sz whole
              ∙ ap (λ k. take k whole) (omega arith) in
            send_blocks-step rounds (suc n) s s1 m m1 rsp (ground arith) es hc
              (hb ∙ get_block1-middle m (suc n) (omega arith))
              (send_blocks-from rounds (suc n) s1 m1 (b ++ (middle m (suc n)).payload) h1 hf1 taken
                (ground arith) (omega arith) (omega arith))
      ]

  -- A payload that is larger than the block size, which is one of the format, and has no more blocks
  -- than a block number can count: against a peer that takes the blocks of a request in order, the
  -- loop ends with as many rounds as there are blocks, returns the answer to the last block, and the
  -- peer has the whole payload.
  pub send_blocks_complete :
      (rounds : ℕ) (s : S) (m : Message)
      → Ready s
      → IsFor m
      → sz < length whole
      → length whole ≤ rounds * sz
      → rounds ≤ 2 ^ 20
      → (s' : S) × (m' : Message) × (rsp : Message) × (send_blocks send rounds whole sz 0 s m
          ≡ (s', m', ok (some rsp)))
        × Done s' whole rsp
        × IsFor m'
  send_blocks_complete zero s m hr hf lo hi hn = absurd (omega arith)
  send_blocks_complete (suc rounds) s m hr hf lo hi hn =
      let chunk = take sz (drop (0 * sz) whole) in
      let (s1, m1, rsp, es, hc, hb, hf1, h1) =
        c.first s (middle m 0) hr (c.part_is_for m whole chunk true 0 hf)
          (get_block1-middle m 0 (omega arith)) in
      let one : sz ≡ 1 * sz = omega arith in
      let none_before : 0 * sz ≡ 0 = omega arith in
      let taken : (middle m 0).payload ≡ take (1 * sz) whole =
        payload-part m whole chunk true sz 0
        ∙ ap₂ (λ (j k : ℕ). take j (drop k whole)) one none_before in
      send_blocks-step rounds 0 s s1 m m1 rsp (omega arith) es hc
        (hb ∙ get_block1-middle m 0 (omega arith))
        (send_blocks-from rounds 0 s1 m1 (middle m 0).payload h1 hf1 taken (omega arith)
          (omega arith) (omega arith))

-- A payload that needs blocks, and a response without Block2: what the first loop gives is the result.
pub send_message-upload :
    {S : Type 0} (send : Sender S) (fuel : ℕ) (so : SendOptions) (addr : Bytes) (s : S)
    (m : Message) {s' : S} {m' rsp : Message}
    → let msg = addressed send so addr m in
      requires_blockwise msg ≡ ok (msg, true)
      → send_blocks send fuel m.payload so.block_size 0 s msg ≡ (s', m', ok (some rsp))
      → get_block2 rsp ≡ none
      → send_message send fuel so addr s m ≡ (s', m', ok (some rsp))
unfolding send_message
send_message-upload send fuel so addr s m large es e2 =
    rw (large, send_message) (rw es (rw e2 refl))
