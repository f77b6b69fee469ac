-- ===== src/Tests/Tables.antt =====
-- dedup.go, nstart.go and handle_ack.go at concrete tables.
use mathlib.Core.Option
use coap.Base.{ℕ, ◌≡◌, refl, [], ◌∷◌, some, none, true, false, arith, bytes_eq, if◌then◌else◌, ◌⊎◌}
use coap.Base.Int.{pos}
use coap.Base.Maps.{load, store, delete, string_key, number_key}
use coap.Options.{Bytes}
use coap.Message.{Message, new_message, no_meta}
use coap.Dedup.{DedupEntry, Dedup, new_entry, entry_of, deduplicate, dedup_watcher}
use coap.Dedup.Once.{updated, deduplicate_cases}
use coap.Dedup.Expiry.{is_expired, entry_of-dedup_watcher}
use coap.Nstart.{nstart_inc, nstart_dec}
use coap.Nstart.Bound.{Senders, begin, here, next, idle, IsBounded, Reach-IsBounded}
use coap.Pending.{Pending, handle_acknowledgement, receive}
use coap.Pending.Delivery.{
  channel, response-delivered, separate_response-delivered, early_response-lost,
  response-forgets_mid,
}

abbrev from : Bytes → ℕ → ℕ → Message
from addr mid at = record new_message {
  message_id = mid;
  code = 1;
  meta = record no_meta { remote_addr = addr; received_at = at };
}

abbrev peer : Bytes
peer = b'p' ∷ []

abbrev reply : Message
reply = record new_message { code = 69 }

-- One entry, from time 1.
abbrev one_message : Dedup
one_message = record {
  dedup_map = (peer, (7, new_entry) ∷ []) ∷ [];
  dedup_delete_after = (peer, 601) ∷ [];
}

one_message_old : entry_of (dedup_watcher 602 one_message) peer 7 ≡ none
unfolding dedup_watcher entry_of load delete bytes_eq
one_message_old = refl

one_message_lacks : entry_of one_message peer 8 ≡ none
unfolding entry_of load bytes_eq
one_message_lacks = refl

one_message_has : entry_of one_message peer 7 ≡ some new_entry
unfolding entry_of load bytes_eq
one_message_has = refl

deduplicate_cases_example :
    ((entry_of one_message peer 8 ≡ none)
      × (d' : Dedup) × (deduplicate 600 one_message (from peer 8 500) ≡ (d', new_entry, true))
      × ((addr : Bytes) (mid : ℕ)
          → entry_of d' addr mid ≡ updated one_message peer 8 new_entry addr mid))
    ⊎ ((entry : DedupEntry) × (entry_of one_message peer 8 ≡ some entry)
        × (deduplicate 600 one_message (from peer 8 500) ≡ (one_message, entry, false)))
deduplicate_cases_example = deduplicate_cases 600 one_message (from peer 8 500)

entry_of-dedup_watcher_example : entry_of (dedup_watcher 602 one_message) peer 7 ≡ (
    if is_expired 602 peer one_message.dedup_delete_after
    then none
    else entry_of one_message peer 7)
entry_of-dedup_watcher_example = entry_of-dedup_watcher 602 one_message peer 7

-- A message of time 500 keeps the entry of time 1 until time 1100.
abbrev one_sender : Senders
one_sender = record { table = (peer, pos 1) ∷ []; sending = peer ∷ [] }

first_enters : nstart_inc [] peer (pos 1) ≡ some ((peer, pos 1) ∷ [])
unfolding nstart_inc load store delete
first_enters = refl

second_waits : nstart_inc ((peer, pos 1) ∷ []) peer (pos 1) ≡ none
unfolding nstart_inc load bytes_eq
second_waits = refl

Reach-IsBounded_example : IsBounded 1 one_sender
Reach-IsBounded_example =
    Reach-IsBounded 1 one_sender (omega arith)
      (next here (begin idle peer ((peer, pos 1) ∷ []) first_enters))

-- A sender without a limit does not count itself, and counts down at its end all the same.
unlimited_counts_down :
    Option.map (λ m. load peer (nstart_dec m peer)) (nstart_inc ((peer, pos 1) ∷ []) peer (pos 0))
    ≡ some (some (pos 0))
unfolding nstart_inc nstart_dec load store bytes_eq delete
unlimited_counts_down = refl

abbrev token : Bytes
token = 9 ∷ []

-- One message waits, under its token and under message id 40.
abbrev waiting : Pending
waiting = record {
  pending_map = (token, 0) ∷ [];
  pending_mid_map = (40, 0) ∷ [];
  pending_msg_id = 41;
  channels = (0, none) ∷ [];
  next_entry = 1;
}

abbrev response : Message
response = record new_message { code = 69; token = token; message_id = 77 }

abbrev ack : Message
ack = record new_message { type = 2; message_id = 40 }

waiting_token : load token waiting.pending_map ≡ some 0
unfolding load bytes_eq
waiting_token = refl

waiting_mid : load 40 waiting.pending_mid_map ≡ some 0
unfolding load
waiting_mid = refl

waiting-channel : channel waiting 0 ≡ some none
unfolding load
waiting-channel = refl

response-delivered_example :
    (p' : Pending) × (handle_acknowledgement waiting response ≡ (p', true))
    × (channel p' 0 ≡ some (some response))
    × ((t : Bytes)
        → load t p'.pending_map ≡ (if bytes_eq token t then none else load t waiting.pending_map))
    × (handle_acknowledgement p' response ≡ (p', false))
response-delivered_example =
    response-delivered waiting response response 0 (λ e. omega arith) waiting_token waiting-channel
      (λ e. omega arith) refl

separate_response-delivered_example :
    (p1 : Pending) × (p2 : Pending) × (p3 : Pending) × (handle_acknowledgement waiting ack
      ≡ (p1, true))
    × (receive p1 0 ≡ (p2, some ack))
    × (handle_acknowledgement p2 response ≡ (p3, true))
    × ((receive p3 0).1 ≡ some response)
separate_response-delivered_example =
    separate_response-delivered waiting ack response 0 refl waiting_mid waiting-channel
      (λ e. omega arith) waiting_token

early_response-lost_example :
    (p1 : Pending) × (p2 : Pending) × (handle_acknowledgement waiting ack ≡ (p1, true))
    × (handle_acknowledgement p1 response ≡ (p2, true))
    × (channel p2 0 ≡ some (some ack))
    × (load token p2.pending_map ≡ none)
early_response-lost_example =
    early_response-lost waiting ack response 0 refl waiting_mid waiting-channel (λ e. omega arith)
      waiting_token

-- The peer's own message id 40 hides the acknowledgement of message 40.
response-forgets_mid_example :
    (handle_acknowledgement
      (handle_acknowledgement waiting (record response { message_id = 40 })).0
      ack).1
    ≡ false
response-forgets_mid_example =
    response-forgets_mid waiting (record response { message_id = 40 }) ack 0 (λ e. omega arith)
      waiting_token refl refl
