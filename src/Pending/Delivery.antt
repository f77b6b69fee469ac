-- ===== src/Pending/Delivery.antt =====
-- handle_ack.go: which waiting message gets which acknowledgement.
use coap.Base.{
  ℕ, ◌≡◌, ◌≢◌, refl, ap, ◌∙◌, Bool, true, false, Option, none, some, if◌then◌else◌, ◌==◌, ==_refl,
  ==_iff, inl, inr, Bool-cases, bytes_eq, bytes_eq_refl,
}
use coap.Base.Maps.{load, store, delete, number_key, string_key, load-delete, load-store_self}
use coap.Options.{Bytes}
use coap.Message.{Message}
use coap.Pending.{
  Pending, token_or, pending_save, offer, receive, acknowledge_empty, acknowledge_token,
  handle_acknowledgement,
}

-- What the channel of an entry holds, if there is such an entry.
abbrev pub channel : Pending → ℕ → Option (Option Message)
channel p pe = load pe p.channels

-- A saved message: its token and its message id lead to its entry, whose channel is empty.
pub pending_save-waits :
    (fresh : Bytes) (p : Pending) (msg : Message)
    → let (p', sent, pe) = pending_save fresh p msg in
      (load sent.token p'.pending_map ≡ some pe)
      × (load sent.message_id p'.pending_mid_map ≡ some pe)
      × (channel p' pe ≡ some none)
      × (sent.token ≡ token_or msg.token fresh)
      × (sent.message_id ≡ p.pending_msg_id)
unfolding pending_save
pending_save-waits fresh p msg = (
  load-store_self (token_or msg.token fresh) p.next_entry p.pending_map,
  load-store_self p.pending_msg_id p.next_entry p.pending_mid_map,
  load-store_self p.next_entry none p.channels,
  refl,
  refl,
)

-- The state behind a response that found its entry.
abbrev removed : Pending → Message → Pending
removed p rsp = record p {
  pending_map = delete rsp.token p.pending_map;
  pending_mid_map = delete rsp.message_id p.pending_mid_map;
}

abbrev taken : Pending → Message → ℕ → Pending
taken p rsp pe = offer (removed p rsp) pe rsp

response_found :
    (p : Pending) (rsp : Message) (pe : ℕ)
    → rsp.code ≢ 0
    → load rsp.token p.pending_map ≡ some pe
    → handle_acknowledgement p rsp ≡ (taken p rsp pe, true)
unfolding handle_acknowledgement acknowledge_token
response_found p rsp pe hc hl = elim (Bool-cases (rsp.code == 0)) [
  | inl e ↦ absurd (hc ((==_iff rsp.code 0).0 e))
  | inr e ↦ rw (e, handle_acknowledgement) (rw (hl, acknowledge_token))
]

response_unknown :
    (p : Pending) (rsp : Message)
    → rsp.code ≢ 0
    → load rsp.token p.pending_map ≡ none
    → handle_acknowledgement p rsp ≡ (p, false)
unfolding handle_acknowledgement acknowledge_token
response_unknown p rsp hc hl = elim (Bool-cases (rsp.code == 0)) [
  | inl e ↦ absurd (hc ((==_iff rsp.code 0).0 e))
  | inr e ↦ rw (e, handle_acknowledgement) (rw (hl, acknowledge_token))
]

offer-channel :
    (p : Pending) (pe : ℕ) (req : Message)
    → channel p pe ≡ some none
    → channel (offer p pe req) pe ≡ some (some req)
unfolding offer
offer-channel p pe req h = rw h (load-store_self pe (some req) p.channels)

-- A response with a code finds the message that waits under its token: the channel, which was
-- empty, holds it, and the token leads nowhere any more, while every other token leads where it
-- did. A second response with the token is not found and changes nothing.
pub response-delivered :
    (p : Pending) (rsp again : Message) (pe : ℕ)
    → rsp.code ≢ 0
    → load rsp.token p.pending_map ≡ some pe
    → channel p pe ≡ some none
    → again.code ≢ 0
    → again.token ≡ rsp.token
    → (p' : Pending) × (handle_acknowledgement p rsp ≡ (p', true))
      × (channel p' pe ≡ some (some rsp))
      × ((t : Bytes)
          → load t p'.pending_map ≡ (if bytes_eq rsp.token t then none else load t p.pending_map))
      × (handle_acknowledgement p' again ≡ (p', false))
unfolding offer
response-delivered p rsp again pe hc hl hch ha ht = (
  taken p rsp pe,
  response_found p rsp pe hc hl,
  offer-channel (removed p rsp) pe rsp hch,
  λ t. load-delete rsp.token t p.pending_map,
  response_unknown (taken p rsp pe) again ha
      (rw ht (load-delete rsp.token rsp.token p.pending_map ∙ rw (bytes_eq_refl rsp.token))),
)

empty_found :
    (p : Pending) (ack : Message) (pe : ℕ)
    → ack.code ≡ 0
    → load ack.message_id p.pending_mid_map ≡ some pe
    → handle_acknowledgement p ack ≡ (
      offer (record p { pending_mid_map = delete ack.message_id p.pending_mid_map }) pe ack,
      true,
    )
unfolding handle_acknowledgement acknowledge_empty
empty_found p ack pe hc hl = rw (hc, handle_acknowledgement) (rw (hl, acknowledge_empty))

empty_unknown :
    (p : Pending) (ack : Message)
    → ack.code ≡ 0
    → load ack.message_id p.pending_mid_map ≡ none
    → handle_acknowledgement p ack ≡ (p, false)
unfolding handle_acknowledgement acknowledge_empty
empty_unknown p ack hc hl = rw (hc, handle_acknowledgement) (rw (hl, acknowledge_empty))

receive_lem :
    (p : Pending) (pe : ℕ) (m : Message)
    → channel p pe ≡ some (some m)
    → receive p pe ≡ (record p { channels = store pe none p.channels }, some m)
unfolding receive
receive_lem p pe m h = rw (h, receive)

abbrev without_mid : Pending → Message → Pending
without_mid p ack = record p { pending_mid_map = delete ack.message_id p.pending_mid_map }

-- An empty acknowledgement by message id, its receipt by the sender, and then a response by token:
-- the sender receives both, in this order.
pub separate_response-delivered :
    (p : Pending) (ack rsp : Message) (pe : ℕ)
    → ack.code ≡ 0
    → load ack.message_id p.pending_mid_map ≡ some pe
    → channel p pe ≡ some none
    → rsp.code ≢ 0
    → load rsp.token p.pending_map ≡ some pe
    → (p1 : Pending) × (p2 : Pending) × (p3 : Pending) × (handle_acknowledgement p ack ≡ (p1, true))
      × (receive p1 pe ≡ (p2, some ack))
      × (handle_acknowledgement p2 rsp ≡ (p3, true))
      × ((receive p3 pe).1 ≡ some rsp)
unfolding offer
separate_response-delivered p ack rsp pe hc hm hch hr ht =
    let p1 = offer (without_mid p ack) pe ack in
    let full : channel p1 pe ≡ some (some ack) = offer-channel (without_mid p ack) pe ack hch in
    let p2 : Pending = record p1 { channels = store pe none p1.channels } in
    let empty : channel p2 pe ≡ some none = load-store_self pe none p1.channels in
    let p3 = taken p2 rsp pe in
    (
      p1,
      p2,
      p3,
      empty_found p ack pe hc hm,
      receive_lem p1 pe ack full,
      response_found p2 rsp pe hr ht,
      ap (λ (r : Pending × Option Message). r.1)
          (receive_lem p3 pe rsp (offer-channel (removed p2 rsp) pe rsp empty)),
    )

-- Where the response comes before the sender has received the empty acknowledgement, it is lost:
-- the channel is full and keeps the acknowledgement, the response counts as delivered, and its token
-- leads nowhere any more.
pub early_response-lost :
    (p : Pending) (ack rsp : Message) (pe : ℕ)
    → ack.code ≡ 0
    → load ack.message_id p.pending_mid_map ≡ some pe
    → channel p pe ≡ some none
    → rsp.code ≢ 0
    → load rsp.token p.pending_map ≡ some pe
    → (p1 : Pending) × (p2 : Pending) × (handle_acknowledgement p ack ≡ (p1, true))
      × (handle_acknowledgement p1 rsp ≡ (p2, true))
      × (channel p2 pe ≡ some (some ack))
      × (load rsp.token p2.pending_map ≡ none)
unfolding offer
early_response-lost p ack rsp pe hc hm hch hr ht =
    let p1 = offer (without_mid p ack) pe ack in
    let full : channel p1 pe ≡ some (some ack) = offer-channel (without_mid p ack) pe ack hch in
    (
      p1,
      taken p1 rsp pe,
      empty_found p ack pe hc hm,
      response_found p1 rsp pe hr ht,
      rw full (load-store_self pe (some ack) p1.channels),
      load-delete rsp.token rsp.token p.pending_map ∙ rw (bytes_eq_refl rsp.token),
    )

-- A response that is found takes its own message id out of the table of the ids that this side
-- gave: a message that waits under that number is not found by its empty acknowledgement any more.
pub response-forgets_mid :
    (p : Pending) (rsp ack : Message) (pe : ℕ)
    → rsp.code ≢ 0
    → load rsp.token p.pending_map ≡ some pe
    → ack.code ≡ 0
    → ack.message_id ≡ rsp.message_id
    → (handle_acknowledgement (handle_acknowledgement p rsp).0 ack).1 ≡ false
unfolding offer
response-forgets_mid p rsp ack pe hr ht hc hm =
    let gone : load ack.message_id (delete rsp.message_id p.pending_mid_map) ≡ none =
      rw hm (
        load-delete rsp.message_id rsp.message_id p.pending_mid_map
        ∙ rw (==_refl rsp.message_id)) in
    rw (response_found p rsp pe hr ht)
      (ap (λ (r : Pending × Bool). r.1) (empty_unknown (taken p rsp pe) ack hc gone))
