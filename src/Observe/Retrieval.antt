-- ===== src/Observe/Retrieval.antt =====
-- blockRetreive of send.go: the loop against a peer that serves the payload.
use coap.Base.{
  ℕ, zero, suc, ◌+◌, ◌*◌, ◌^◌, ◌≤◌, ◌<◌, ◌≡◌, refl, ap, ◌∙◌, Bool, true, false, ◌++◌, some, length,
  take, Result, ok, arith, Bool-cases, inl, inr, take_all,
}
use coap.Base.Int.{ℤ}
use coap.Options.{Bytes, media, opt_content_format, opt_block2}
use coap.Message.{Message, with_content_format, is_no_media}
use coap.Block.{BlockMetadata, block_init, get_block2}
use coap.Block.Codec.{IsBlockSize, on_wire_exact}
use coap.Block.Travel.{get_block-with_block, get_block-with_option}
use coap.Cache.Responses.{block_payload-taken}
use coap.Client.Fetch.{Provider, is_followed}
use coap.Observe.{Sender, block_request, gather, retrieve}

get_block2-with_content_format :
    (m : Message) (af : ℤ) → get_block2 (with_content_format m af) ≡ get_block2 m
unfolding with_content_format get_block2
get_block2-with_content_format m af = elim (Bool-cases (is_no_media af)) [
  | inl e ↦ rw e refl
  | inr e ↦ rw e (get_block-with_option opt_block2 opt_content_format m (media af) (omega arith))
]

-- The request for a block asks for that block.
get_block2-block_request :
    (path : Bytes) (af : ℤ) (num sz : ℕ)
    → IsBlockSize sz
    → num < 2 ^ 20
    → get_block2 (block_request path af num sz) ≡ some (block_init num false sz)
unfolding block_request block_init
get_block2-block_request path af num sz format hn =
    let bm : BlockMetadata = record { size = sz; num = num; more = false } in
    get_block2-with_content_format _ af
    ∙ (get_block-with_block _ (some bm)).1
    ∙ ap some (on_wire_exact bm format hn)

module _ {S : Type 0} (send : Sender S) (path : Bytes) (af : ℤ) (sz : ℕ) (whole : Bytes)
    (p : Provider send sz whole) (format : IsBlockSize sz) where
  open p use {IsFor, Serves}

  retrieve-step :
      (rounds num : ℕ) (buf : Bytes) (s s1 : S) (m1 rsp : Message) {r : S × Result Bytes}
      → send s (block_request path af num sz) ≡ (s1, m1, ok (some rsp))
      → get_block2 rsp ≡ some (block_init num true sz)
      → retrieve send path af rounds (suc num) sz s1 (buf ++ rsp.payload) ≡ r
      → retrieve send path af (suc rounds) num sz s buf ≡ r
  unfolding retrieve block_init
  retrieve-step rounds num buf s s1 m1 rsp es hb e = rw es (rw (hb, gather) e)

  retrieve-end :
      (rounds num : ℕ) (buf : Bytes) (s s1 : S) (m1 rsp : Message)
      → send s (block_request path af num sz) ≡ (s1, m1, ok (some rsp))
      → get_block2 rsp ≡ some (block_init num false sz)
      → retrieve send path af (suc rounds) num sz s buf ≡ (s1, ok (buf ++ rsp.payload))
  unfolding retrieve block_init
  retrieve-end rounds num buf s s1 m1 rsp es hb = rw es (rw (hb, gather) refl)

  -- The blocks from `num` on, behind those that are there: against a peer that serves the payload,
  -- the loop ends with as many rounds as blocks are missing, and gives the whole payload.
  pub retrieve_complete :
      (rounds num : ℕ) (s : S) (buf : Bytes)
      → ((k : ℕ) → IsFor (block_request path af k sz))
      → Serves s
      → buf ≡ take (num * sz) whole
      → num * sz < length whole
      → length whole ≤ num * sz + rounds * sz
      → num + rounds ≤ 2 ^ 20
      → (s' : S) × (retrieve send path af rounds num sz s buf ≡ (s', ok whole)) × Serves s'
  retrieve_complete zero num s buf asks hs eb lo hi hn = absurd (omega arith)
  retrieve_complete (suc rounds) num s buf asks hs eb lo hi hn =
      let (s1, m1, rsp, es, ep, hb, hf1, hs1) =
        p.block s (block_request path af num sz) num hs (asks num)
          (get_block2-block_request path af num sz format (omega arith)) (omega arith)
          (omega arith) in
      let taken : buf ++ rsp.payload ≡ take (suc num * sz) whole =
        block_payload-taken whole buf rsp.payload num sz eb ep in
      elim (Bool-cases (is_followed send sz whole num)) [
        | inl e ↦
            let (s2, e2, hs2) =
              retrieve_complete rounds (suc num) s1 (buf ++ rsp.payload) asks hs1 taken
                (ground arith) (omega arith) (omega arith) in
            (
              s2,
              retrieve-step rounds num buf s s1 m1 rsp es
                  (hb ∙ ap (λ (b : Bool). some (block_init num b sz)) e) e2,
              hs2,
            )
        | inr e ↦ (
          s1,
          retrieve-end rounds num buf s s1 m1 rsp es
                (hb ∙ ap (λ (b : Bool). some (block_init num b sz)) e)
              ∙ ap (λ (w : Bytes). (s1, ok w))
                  (taken ∙ take_all (suc num * sz) whole (ground arith)),
          hs1,
        )
      ]
