-- ===== src/Dedup.antt =====
-- dedup.go: the table of the message ids that each endpoint has sent.
-- `dedupMap` holds an entry for each endpoint and message id, and `dedupDeleteAfter` a time for each
-- endpoint. An entry is shared by pointer in the source; `save` finds it again by its two keys.
pub mod Sendable
pub mod Once
pub mod Expiry
pub mod Timed
use coap.Base.{ℕ, ◌+◌, Bool, true, false, List, [], ◌∷◌, Option, none, some, ltb, if◌then◌else◌}
use coap.Base.Maps.{load, store, delete, number_key, string_key}
use coap.Options.{Bytes}
use coap.Message.{Message}

pub record DedupEntry : Type 0 where
  pub pending : Bool
  pub rsp : Option Message

abbrev pub Endpoint : Type 0
Endpoint = List (ℕ × DedupEntry)

pub record Dedup : Type 0 where
  pub dedup_map : List (Bytes × Endpoint)
  pub dedup_delete_after : List (Bytes × ℕ)

abbrev pub endpoint_of : Option Endpoint → Endpoint
endpoint_of none = []
endpoint_of (some ep) = ep

abbrev pub new_entry : DedupEntry
new_entry = record { pending = true; rsp = none }

-- The entry of an endpoint and a message id.
unfoldable pub entry_of : Dedup → Bytes → ℕ → Option DedupEntry
entry_of d addr mid = load mid (endpoint_of (load addr d.dedup_map))

-- Puts an entry into its endpoint's table, which is made first where it is missing.
unfoldable pub put_entry : Dedup → Bytes → ℕ → DedupEntry → Dedup
put_entry d addr mid entry = record d {
  dedup_map = store addr (store mid entry (endpoint_of (load addr d.dedup_map))) d.dedup_map;
}

-- A new message id is entered, and the endpoint's time is renewed.
unfoldable pub enter : ℕ → Dedup → Message → Dedup
enter expiration d msg = record (put_entry d msg.meta.remote_addr msg.message_id new_entry) {
  dedup_delete_after =
      store msg.meta.remote_addr (msg.meta.received_at + expiration) d.dedup_delete_after;
}

unfoldable pub resolve : Option DedupEntry → ℕ → Dedup → Message → Dedup × DedupEntry × Bool
resolve none expiration d msg = (enter expiration d msg, new_entry, true)
resolve (some entry) expiration d msg = (d, entry, false)

-- `deduplicate`: the table, the entry and whether the message is new.
unfoldable pub deduplicate : ℕ → Dedup → Message → Dedup × DedupEntry × Bool
unfolding resolve
deduplicate expiration d msg =
    resolve (entry_of d msg.meta.remote_addr msg.message_id) expiration d msg

unfoldable pub save_at : Option DedupEntry → Dedup → Bytes → ℕ → Message → Dedup
save_at none d addr mid rsp = d
save_at (some _) d addr mid rsp = put_entry d addr mid (record { pending = false; rsp = some rsp })

-- `entry.save(rsp)` on the entry of an endpoint and a message id.
unfoldable pub save : Dedup → Bytes → ℕ → Message → Dedup
unfolding save_at
save d addr mid rsp = save_at (entry_of d addr mid) d addr mid rsp

-- One round of `dedupWatcher` over the endpoints that have a time.
unfoldable pub watch : ℕ → List (Bytes × ℕ) → Dedup → Dedup
watch now [] d = d
watch now ((addr, expiration_time) ∷ times) d =
    let d' : Dedup = record {
      dedup_map = delete addr d.dedup_map;
      dedup_delete_after = delete addr d.dedup_delete_after;
    } in
    watch now times (if ltb expiration_time now then d' else d)

unfoldable pub dedup_watcher : ℕ → Dedup → Dedup
unfolding watch
dedup_watcher now d = watch now d.dedup_delete_after d
