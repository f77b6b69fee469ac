-- ===== src/Dedup/Expiry.antt =====
-- dedupWatcher of dedup.go: which entries a round of the watcher deletes.
use coap.Base.{
  ℕ, ◌+◌, ◌≤◌, ◌≡◌, refl, ◌∙◌, Bool, false, ◌&&◌, ◌||◌, List, [], ◌∷◌, none, some, if◌then◌else◌,
  ltb, arith, bytes_eq, bytes_eq_refl,
}
use coap.Base.Maps.{load, store, delete, number_key, string_key, load-delete}
use coap.Options.{Bytes}
use coap.Message.{Message}
use coap.Dedup.{DedupEntry, Dedup, entry_of, enter, deduplicate, watch, dedup_watcher}
use coap.Dedup.Once.{deduplicate_new, entry_of-enter}

-- The endpoint has a time, and it is before `now`.
unfoldable pub is_expired : ℕ → Bytes → List (Bytes × ℕ) → Bool
is_expired now addr [] = false
is_expired now addr ((a, t) ∷ times) =
    let rest = is_expired now addr times in (bytes_eq a addr && ltb t now) || rest

pub entry_of-delete :
    (d : Dedup) (a addr : Bytes) (mid : ℕ) (times : List (Bytes × ℕ))
    → entry_of (record { dedup_map = delete a d.dedup_map; dedup_delete_after = times }) addr mid
      ≡ (if bytes_eq a addr then none else entry_of d addr mid)
unfolding entry_of load
entry_of-delete d a addr mid times = ground (arith, load-delete a addr d.dedup_map)

entry_of-watch :
    (now : ℕ) (times : List (Bytes × ℕ)) (d : Dedup) (addr : Bytes) (mid : ℕ)
    → entry_of (watch now times d) addr mid
      ≡ (if is_expired now addr times then none else entry_of d addr mid)
unfolding watch is_expired
entry_of-watch now [] d addr mid = refl
entry_of-watch now ((a, t) ∷ times) d addr mid =
    let d' : Dedup = record {
      dedup_map = delete a d.dedup_map;
      dedup_delete_after = delete a d.dedup_delete_after;
    } in
    entry_of-watch now times (if ltb t now then d' else d) addr mid
    ∙ ground (arith, entry_of-delete d a addr mid (delete a d.dedup_delete_after))

-- A round of the watcher deletes every entry of the endpoints whose time has passed, and no other.
pub entry_of-dedup_watcher :
    (now : ℕ) (d : Dedup) (addr : Bytes) (mid : ℕ)
    → entry_of (dedup_watcher now d) addr mid
      ≡ (if is_expired now addr d.dedup_delete_after then none else entry_of d addr mid)
unfolding dedup_watcher
entry_of-dedup_watcher now d addr mid = entry_of-watch now d.dedup_delete_after d addr mid

is_expired-delete :
    (now : ℕ) (addr : Bytes) (times : List (Bytes × ℕ))
    → is_expired now addr (delete addr times) ≡ false
unfolding is_expired delete
is_expired-delete now addr [] = refl
is_expired-delete now addr ((a, t) ∷ times) = ground (arith, is_expired-delete now addr times)

is_expired-store :
    (now t : ℕ) (addr : Bytes) (times : List (Bytes × ℕ))
    → now ≤ t
    → is_expired now addr (store addr t times) ≡ false
unfolding is_expired store
is_expired-store now t addr times h = ground (arith, is_expired-delete now addr times)

-- A new message renews the time of its endpoint, and with it the life of every entry of that
-- endpoint, however long ago the entry was made: until `DeduplicateExpiration` after the endpoint's
-- last new message the watcher deletes none of them.
pub dedup_watcher-keeps :
    (expiration now : ℕ) (d : Dedup) (msg : Message) (mid : ℕ) (entry : DedupEntry)
    → entry_of d msg.meta.remote_addr msg.message_id ≡ none
    → entry_of d msg.meta.remote_addr mid ≡ some entry
    → now ≤ msg.meta.received_at + expiration
    → entry_of (dedup_watcher now (deduplicate expiration d msg).0) msg.meta.remote_addr mid
      ≡ some entry
unfolding enter
dedup_watcher-keeps expiration now d msg mid entry fresh old h =
    let addr = msg.meta.remote_addr in
    rw (deduplicate_new expiration d msg fresh) (
      entry_of-dedup_watcher now (enter expiration d msg) addr mid
      ∙ ground (
        arith,
        is_expired-store now (msg.meta.received_at + expiration) addr d.dedup_delete_after,
        entry_of-enter expiration d msg addr mid,
        bytes_eq_refl addr,
      ))
