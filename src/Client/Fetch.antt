-- ===== src/Client/Fetch.antt =====
-- The second loop of Send: what it needs of the peer, and that it then collects the whole response.
use coap.Base.{
  none, [], ℕ, zero, suc, ◌+◌, ◌*◌, ◌^◌, ◌≤◌, ◌<◌, ◌≡◌, refl, ap, ◌∙◌, Bool, true, false, ◌++◌,
  Option, some, length, take, Result, ok, arith, ltb, Bool-cases, inl, inr, take_all,
}
use coap.Options.{Bytes}
use coap.Message.{Message}
use coap.Block.{BlockMetadata, block_init, get_block2, with_block1, with_block2}
use coap.Block.Codec.{IsBlockSize, on_wire_exact}
use coap.Block.Travel.{get_block-with_block}
use coap.Cache.Responses.{block_payload, block_payload-taken}
use coap.Client.{fetch_rest, collect, SendOptions, addressed, send_message}
use coap.Transfer.{requires_blockwise}
use coap.Observe.{Sender}

module _ {S : Type 0} (send : Sender S) (sz : ℕ) (whole : Bytes) where
  abbrev pub is_followed : ℕ → Bool
  is_followed num = ltb (num * sz + sz) (length whole)

  -- What the loop needs of its peer: in a state that `Serves` the payload, a request `IsFor` it with
  -- a block number gets that block, with its description.
  pub record Provider : Type 1 where
    pub IsFor : Message → Type 0
    pub Serves : S → Type 0
    pub numbered_is_for :
        (m : Message) (bm : BlockMetadata) → IsFor m → IsFor (with_block2 m (some bm))
    pub block :
        (s : S) (m : Message) (num : ℕ)
        → Serves s
        → IsFor m
        → get_block2 m ≡ some (block_init num false sz)
        → num * sz ≤ length whole
        → num < 2 ^ 20
        → (s' : S) × (m' : Message) × (rsp : Message) × (send s m ≡ (s', m', ok (some rsp)))
          × (rsp.payload ≡ block_payload whole num sz)
          × (get_block2 rsp ≡ some (block_init num (is_followed num) sz))
          × IsFor m'
          × Serves s'

module _ {S : Type 0} (send : Sender S) (sz : ℕ) (whole : Bytes) (p : Provider send sz whole)
    (format : IsBlockSize sz) where
  open p use {IsFor, Serves}

  abbrev asked : Message → ℕ → Message
  asked m num = with_block2 m (some (block_init num false sz))

  get_block2-asked :
      (m : Message) (num : ℕ)
      → num < 2 ^ 20
      → get_block2 (asked m num) ≡ some (block_init num false sz)
  unfolding block_init
  get_block2-asked m num hn =
      let bm : BlockMetadata = record { size = sz; num = num; more = false } in
      (get_block-with_block m (some bm)).1 ∙ ap some (on_wire_exact bm format hn)

  fetch_rest-step :
      (rounds num : ℕ) (buf : Bytes) (s s1 : S) (m m1 rsp : Message)
      {r : S × Message × Result (Option Message)}
      → send s (asked m num) ≡ (s1, m1, ok (some rsp))
      → get_block2 rsp ≡ some (block_init num true sz)
      → fetch_rest send rounds (suc num) sz (buf ++ rsp.payload) s1 m1 ≡ r
      → fetch_rest send (suc rounds) num sz buf s m ≡ r
  unfolding fetch_rest block_init
  fetch_rest-step rounds num buf s s1 m m1 rsp es hb e = rw es (rw (hb, collect) e)

  fetch_rest-end :
      (rounds num : ℕ) (buf : Bytes) (s s1 : S) (m m1 rsp : Message)
      → send s (asked m num) ≡ (s1, m1, ok (some rsp))
      → get_block2 rsp ≡ some (block_init num false sz)
      → fetch_rest send (suc rounds) num sz buf s m
        ≡ (s1, m1, ok (some (record rsp { payload = buf ++ rsp.payload })))
  unfolding fetch_rest block_init
  fetch_rest-end rounds num buf s s1 m m1 rsp es hb = rw es (rw (hb, collect) refl)

  -- The blocks from `num` on, behind those that are there: against a peer that serves the payload,
  -- the loop ends with as many rounds as blocks are missing, and the response that it returns has
  -- the whole payload.
  pub fetch_rest_complete :
      (rounds num : ℕ) (s : S) (m : Message) (buf : Bytes)
      → Serves s
      → IsFor m
      → buf ≡ take (num * sz) whole
      → num * sz < length whole
      → length whole ≤ num * sz + rounds * sz
      → num + rounds ≤ 2 ^ 20
      → (s' : S) × (m' : Message) × (rsp : Message) × (fetch_rest send rounds num sz buf s m
          ≡ (s', m', ok (some rsp)))
        × (rsp.payload ≡ whole)
  fetch_rest_complete zero num s m buf hs hf eb lo hi hn = absurd (omega arith)
  fetch_rest_complete (suc rounds) num s m buf hs hf eb lo hi hn =
      let (s1, m1, rsp, es, ep, hb, hf1, hs1) =
        p.block s (asked m num) num hs (p.numbered_is_for m (block_init num false sz) hf)
          (get_block2-asked m num (omega arith)) (omega arith) (omega arith) in
      let taken : buf ++ rsp.payload ≡ take (suc num * sz) whole =
        block_payload-taken whole buf rsp.payload num sz eb ep in
      elim (Bool-cases (is_followed send sz whole num)) [
        | inl e ↦
            let (s2, m2, rsp2, e2, w) =
              fetch_rest_complete rounds (suc num) s1 m1 (buf ++ rsp.payload) hs1 hf1 taken
                (ground arith) (omega arith) (omega arith) in
            (
              s2,
              m2,
              rsp2,
              fetch_rest-step rounds num buf s s1 m m1 rsp es
                  (hb ∙ ap (λ (b : Bool). some (block_init num b sz)) e) e2,
              w,
            )
        | inr e ↦ (
          s1,
          m1,
          record rsp { payload = buf ++ rsp.payload },
          fetch_rest-end rounds num buf s s1 m m1 rsp es
              (hb ∙ ap (λ (b : Bool). some (block_init num b sz)) e),
          taken ∙ take_all (suc num * sz) whole (ground arith),
        )
      ]

-- A payload that needs no blocks, and a response that is the first of several: the second loop goes
-- on from there.
pub send_message-fetch :
    {S : Type 0} (send : Sender S) (fuel : ℕ) (so : SendOptions) (addr : Bytes) (s : S)
    (m : Message) (sz : ℕ) {s1 : S} {m1 rsp : Message} {r : S × Message × Result (Option Message)}
    → let msg = addressed send so addr m in
      requires_blockwise msg ≡ ok (msg, false)
      → send s msg ≡ (s1, m1, ok (some rsp))
      → get_block2 rsp ≡ some (block_init 0 true sz)
      → fetch_rest send fuel 1 sz rsp.payload s1 (record (with_block1 m1 none) { payload = [] }) ≡ r
      → send_message send fuel so addr s m ≡ r
unfolding send_message block_init
send_message-fetch send fuel so addr s m sz small es e2 e =
    rw (small, send_message) (rw es (rw e2 e))
