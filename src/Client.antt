-- ===== src/Client.antt =====
-- Send of send.go: a request whose payload goes out in blocks, and a response that comes in blocks.
-- Each message goes through `send`, which is a parameter here: a function that takes the state of
-- whatever it works on, and gives the new one, the message as it is changed in place, and the
-- response. `Send.send` is one such function.
pub mod Peer
pub mod Parts
pub mod Upload
pub mod Fetch
pub mod Server
pub mod Stage
pub mod Answered
pub mod Whole
pub mod Download
pub mod Retrieval
use coap.Base.{
  ℕ, zero, suc, ◌+◌, ◌-◌, ◌*◌, ◌/◌, Bool, true, false, ◌&&◌, not, List, [], ◌∷◌, ◌++◌, Option, none,
  some, ◌==◌, if◌then◌else◌, ltb, leb, length, take, drop, Result, ok, err, panic, stuck, ◌>>=◌,
  expected_continue, expected_block1,
}
use coap.Base.Int.{ℤ, pos}
use coap.Options.{Bytes}
use coap.Message.{Message, with_size1}
use coap.Block.{BlockMetadata, block_init, get_block1, get_block2, with_block1, with_block2}
use coap.Transfer.{requires_blockwise}

-- The fields of SendOptions that do not only set timers.
pub record SendOptions : Type 0 where
  pub max_retransmit : ℤ
  pub block_size : ℕ
  pub max_message_size : ℕ
  pub n_start : ℤ

-- The block of the whole payload at this number and whether more follow; `none` is the panic of the slice
-- behind the end.
unfoldable pub cut : Bytes → ℕ → ℕ → Option (Bytes × Bool)
cut whole size num =
    if leb (length whole) (num * size + size)
    then (if leb (num * size) (length whole) then some (drop (num * size) whole, false) else none)
    else some (take size (drop (num * size) whole), true)

-- The message that carries a block. The first one also tells the size of the whole.
unfoldable pub part : Message → Bytes → Bytes → Bool → ℕ → ℕ → Message
part msg whole chunk more size num =
    let m = with_block1 (record msg { payload = chunk }) (some (block_init num more size)) in
    if num == 0 then with_size1 m (pos (length whole)) else m

-- The number behind the block that the response acknowledges. A smaller size in the response
-- changes the unit in which the blocks are counted.
unfoldable pub next_num : ℕ → BlockMetadata → ℕ
next_num size block1 =
    suc (if ltb block1.size size then size / block1.size * (block1.num + 1) - 1 else block1.num)

-- The response to a block, and the size and the number to go on with.
unfoldable pub check_part : Bool → ℕ → Result (Option Message) → Result (Message × ℕ × ℕ)
check_part more size (ok none) = panic
check_part more size (ok (some rsp)) =
    if more && not (rsp.code == 95) then err expected_continue else elim (get_block1 rsp) [
      | none ↦ err expected_block1
      | some block1 ↦ ok (rsp, block1.size, next_num size block1)
    ]
check_part more size (err e) = err e
check_part more size panic = panic
check_part more size stuck = stuck

-- The options and the state behind a `Send` to one address.
module _ {S : Type 0} (send : S → Message → S × Message × Result (Option Message)) where
  abbrev go_on :
      Bool
      → S × Message
      → Result (Message × ℕ × ℕ)
      → (ℕ → ℕ → S × Message × Result (Option Message))
      → S × Message × Result (Option Message)
  go_on true (s, msg) (ok (rsp, size, num)) next = next size num
  go_on false (s, msg) (ok (rsp, size, num)) next = (s, msg, ok (some rsp))
  go_on more (s, msg) (err e) next = (s, msg, err e)
  go_on more (s, msg) panic next = (s, msg, panic)
  go_on more (s, msg) stuck next = (s, msg, stuck)

  -- The loop over the blocks of the payload, on fuel: a peer may keep it going for ever.
  unfoldable pub send_blocks :
      ℕ → Bytes → ℕ → ℕ → S → Message → S × Message × Result (Option Message)
  send_blocks zero whole size num s msg = (s, msg, stuck)
  send_blocks (suc fuel) whole size num s msg = elim (cut whole size num) [
    | none ↦ (s, msg, panic)
    | some (chunk, more) ↦
        let (s', msg', r) = send s (part msg whole chunk more size num) in
        go_on more (s', msg') (check_part more size r)
          λ size' num'. send_blocks fuel whole size' num' s' msg'
  ]

  abbrev collect :
      S × Message
      → Bytes
      → Result (Option Message)
      → (ℕ → Bytes → S × Message × Result (Option Message))
      → S × Message × Result (Option Message)
  collect (s, msg) buf (ok none) next = (s, msg, panic)
  collect (s, msg) buf (ok (some rsp)) next = elim (get_block2 rsp) [
    | none ↦ (s, msg, panic)
    | some block2 ↦
        let rest = next block2.size (buf ++ rsp.payload) in
        if block2.more
        then rest
        else (s, msg, ok (some (record rsp { payload = buf ++ rsp.payload })))
  ]
  collect (s, msg) buf (err e) next = (s, msg, err e)
  collect (s, msg) buf panic next = (s, msg, panic)
  collect (s, msg) buf stuck next = (s, msg, stuck)

  -- The loop over the further blocks of a response. A response without Block2, or none, is used
  -- without a test for nil.
  unfoldable pub fetch_rest :
      ℕ → ℕ → ℕ → Bytes → S → Message → S × Message × Result (Option Message)
  fetch_rest zero block size buf s msg = (s, msg, stuck)
  fetch_rest (suc fuel) block size buf s msg =
      let (s', msg', r) = send s (with_block2 msg (some (block_init block false size))) in
      collect (s', msg') buf r λ size' buf'. fetch_rest fuel (suc block) size' buf' s' msg'

  abbrev fetch_if_more :
      ℕ → S × Message → Message → Option BlockMetadata → S × Message × Result (Option Message)
  fetch_if_more fuel (s, msg) rsp none = (s, msg, ok (some rsp))
  fetch_if_more fuel (s, msg) rsp (some block2) =
      if block2.more
      then fetch_rest fuel 1 block2.size rsp.payload s
          (record (with_block1 msg none) { payload = [] })
      else (s, msg, ok (some rsp))

  abbrev fetch_behind :
      ℕ → S × Message × Result (Option Message) → S × Message × Result (Option Message)
  fetch_behind fuel (s, msg, ok (some rsp)) = fetch_if_more fuel (s, msg) rsp (get_block2 rsp)
  fetch_behind fuel (s, msg, r) = (s, msg, r)

  abbrev send_first :
      ℕ → S → Result (Message × Bool) → Message → S × Message × Result (Option Message)
  send_first fuel s (ok (msg, true)) _ = send_blocks fuel msg.payload msg.meta.block_size 0 s msg
  send_first fuel s (ok (msg, false)) _ = send s msg
  send_first fuel s (err e) msg = (s, msg, err e)
  send_first fuel s panic msg = (s, msg, panic)
  send_first fuel s stuck msg = (s, msg, stuck)

  abbrev pub addressed : SendOptions → Bytes → Message → Message
  addressed options addr msg = record msg {
    meta = record msg.meta {
      remote_addr = addr;
      block_size = options.block_size;
      max_message_size = options.max_message_size;
    };
  }

  -- `Send`, with fuel for each of its loops.
  unfoldable pub send_message :
      ℕ → SendOptions → Bytes → S → Message → S × Message × Result (Option Message)
  unfolding send_blocks fetch_rest
  send_message fuel options addr s msg =
      let msg' = addressed options addr msg in
      fetch_behind fuel (send_first fuel s (requires_blockwise msg') msg')
