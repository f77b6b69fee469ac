-- ===== src/Client/Parts.antt =====
-- send.go: the blocks of a payload as messages, and what the answer to one of them says.
use coap.Base.{
  ℕ, suc, ◌+◌, ◌*◌, ◌^◌, ◌≤◌, ◌<◌, ◌≡◌, refl, ap, ◌∙◌, Bool, true, false, some, length, take, drop,
  ok, arith, Bool-cases, inl, inr, ◌==◌,
}
use coap.Base.Int.{pos}
use coap.Options.{Bytes}
use coap.Message.{Message, with_size1, with_option}
use coap.Block.{BlockMetadata, block_init, get_block1, with_block1, with_block}
use coap.Block.Codec.{IsBlockSize, on_wire_exact}
use coap.Block.Travel.{get_block-with_block, get_block1-with_size1}
use coap.Client.{cut, part, next_num, check_part}

pub payload-part :
    (m : Message) (whole chunk : Bytes) (more : Bool) (sz num : ℕ)
    → (part m whole chunk more sz num).payload ≡ chunk
unfolding part with_size1 with_block1 with_block with_option
payload-part m whole chunk more sz num = ground arith

pub get_block1-part :
    (m : Message) (whole chunk : Bytes) (more : Bool) (sz num : ℕ)
    → IsBlockSize sz
    → num < 2 ^ 20
    → get_block1 (part m whole chunk more sz num) ≡ some (block_init num more sz)
unfolding part block_init
get_block1-part m whole chunk more sz num hs hn =
    let bm : BlockMetadata = record { size = sz; num = num; more = more } in
    let m1 = record m { payload = chunk } in
    let e : get_block1 (with_block1 m1 (some bm)) ≡ some bm =
      (get_block-with_block m1 (some bm)).0 ∙ ap some (on_wire_exact bm hs hn) in
    elim (Bool-cases (num == 0)) [
      | inl z ↦ rw z (get_block1-with_size1 (with_block1 m1 (some bm)) (pos (length whole)) ∙ e)
      | inr z ↦ rw z e
    ]

pub check_part-taken :
    (rsp : Message) (num sz : ℕ)
    → rsp.code ≡ 95
    → get_block1 rsp ≡ some (block_init num true sz)
    → check_part true sz (ok (some rsp)) ≡ ok (rsp, sz, suc num)
unfolding check_part next_num block_init
check_part-taken rsp num sz hc hb = rw hb (ground arith)

pub cut_more :
    (whole : Bytes) (sz num : ℕ)
    → num * sz + sz < length whole
    → cut whole sz num ≡ some (take sz (drop (num * sz) whole), true)
unfolding cut
cut_more whole sz num h = ground arith

pub cut_last :
    (whole : Bytes) (sz num : ℕ)
    → num * sz ≤ length whole
    → length whole ≤ num * sz + sz
    → cut whole sz num ≡ some (drop (num * sz) whole, false)
unfolding cut
cut_last whole sz num h k = ground arith

pub check_part-last :
    (rsp : Message) (block1 : BlockMetadata) (sz : ℕ)
    → get_block1 rsp ≡ some block1
    → check_part false sz (ok (some rsp)) ≡ ok (rsp, block1.size, next_num sz block1)
unfolding check_part
check_part-last rsp block1 sz hb = rw hb refl
