-- ===== src/Pending.antt =====
-- handle_ack.go and GetNextMsgId of send.go: the messages that wait for a response.
-- A `*pendingEntry` is its number, and its channel, which holds one message, an `Option`. The lock
-- `pendingMux` makes each use of the two maps one step. The random token of `randomString(8)` is an
-- argument.
pub mod Delivery
use coap.Base.{
  ℕ, zero, suc, ◌+◌, ◌%◌, Bool, true, false, List, [], ◌∷◌, Option, none, some, ◌==◌, if◌then◌else◌,
}
use coap.Base.Maps.{load, store, delete, number_key, string_key}
use coap.Options.{Bytes}
use coap.Message.{Message}

pub record Pending : Type 0 where
  pub pending_map : List (Bytes × ℕ)
  pub pending_mid_map : List (ℕ × ℕ)
  pub pending_msg_id : ℕ
  -- What each channel holds, and the number that the next entry gets.
  pub channels : List (ℕ × Option Message)
  pub next_entry : ℕ

-- `GetNextMsgId`, a uint16 that wraps.
unfoldable pub get_next_msg_id : Pending → Pending × ℕ
get_next_msg_id p = (record p { pending_msg_id = (p.pending_msg_id + 1) % 65536 }, p.pending_msg_id)

abbrev pub token_or : Bytes → Bytes → Bytes
token_or [] fresh = fresh
token_or (b ∷ t) fresh = b ∷ t

-- `pendingSave`: the message gets a token, if it has none, and the next message id, and the new
-- entry stands under both.
unfoldable pub pending_save : Bytes → Pending → Message → Pending × Message × ℕ
pending_save fresh p msg =
    let token = token_or msg.token fresh in
    (
      record {
        pending_map = store token p.next_entry p.pending_map;
        pending_mid_map = store p.pending_msg_id p.next_entry p.pending_mid_map;
        pending_msg_id = (p.pending_msg_id + 1) % 65536;
        channels = store p.next_entry none p.channels;
        next_entry = suc p.next_entry;
      },
      record msg { token = token; message_id = p.pending_msg_id },
      p.next_entry,
    )

abbrev fill : Option (Option Message) → Message → Option Message
fill (some none) req = some req
fill (some (some m)) req = some m
fill none req = some req

-- `select { case pe.c <- req: default: }`: a full channel drops the message.
unfoldable pub offer : Pending → ℕ → Message → Pending
offer p pe req = record p { channels = store pe (fill (load pe p.channels) req) p.channels }

-- `rsp := <-pendingChan`, where there is something to receive.
unfoldable pub receive : Pending → ℕ → Pending × Option Message
receive p pe = elim (load pe p.channels) [
  | some (some m) ↦ (record p { channels = store pe none p.channels }, some m)
  | _ ↦ (p, none)
]

-- An empty acknowledgement, by its message id.
unfoldable pub acknowledge_empty : Option ℕ → Pending → Message → Pending × Bool
acknowledge_empty none p req = (p, false)
acknowledge_empty (some pe) p req =
    (offer (record p { pending_mid_map = delete req.message_id p.pending_mid_map }) pe req, true)

-- A response, by its token. Its own message id is taken out of the other map.
unfoldable pub acknowledge_token : Option ℕ → Pending → Message → Pending × Bool
acknowledge_token none p req = (p, false)
acknowledge_token (some pe) p req = (
  offer
      (record p {
        pending_map = delete req.token p.pending_map;
        pending_mid_map = delete req.message_id p.pending_mid_map;
      })
      pe req,
  true,
)

-- `handleAcknowledgement`
unfoldable pub handle_acknowledgement : Pending → Message → Pending × Bool
handle_acknowledgement p req =
    if req.code == 0
    then acknowledge_empty (load req.message_id p.pending_mid_map) p req
    else acknowledge_token (load req.token p.pending_map) p req
