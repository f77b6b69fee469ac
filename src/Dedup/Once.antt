-- ===== src/Dedup/Once.antt =====
-- dedup.go: a message id of an endpoint is new once.
use coap.Base.{
  ℕ, ◌≡◌, ◌∙◌, true, false, Option, none, some, if◌then◌else◌, arith, Option-cases, inl, inr, ◌⊎◌,
  bytes_eq, bytes_eq_iff, bytes_eq_refl, ==_refl, ◌==◌,
}
use coap.Base.Maps.{load, store, number_key, string_key, load-store}
use coap.Options.{Bytes}
use coap.Message.{Message}
use coap.Dedup.{
  DedupEntry, Dedup, endpoint_of, entry_of, put_entry, new_entry, enter, deduplicate, save,
}

-- The entry that a change of one entry leaves under a key.
abbrev pub updated : Dedup → Bytes → ℕ → DedupEntry → Bytes → ℕ → Option DedupEntry
updated d from m entry addr mid =
    if bytes_eq from addr
    then (if m == mid then some entry else entry_of d addr mid)
    else entry_of d addr mid

pub entry_of-put_entry :
    (d : Dedup) (from : Bytes) (m : ℕ) (entry : DedupEntry) (addr : Bytes) (mid : ℕ)
    → entry_of (put_entry d from m entry) addr mid ≡ updated d from m entry addr mid
unfolding entry_of put_entry
entry_of-put_entry d from m entry addr mid =
    let ep = endpoint_of (load from d.dedup_map) in
    ground (
      arith,
      bytes_eq_iff from addr,
      load-store from addr (store m entry ep) d.dedup_map,
      load-store m mid entry ep,
    )

pub entry_of-enter :
    (expiration : ℕ) (d : Dedup) (msg : Message) (addr : Bytes) (mid : ℕ)
    → entry_of (enter expiration d msg) addr mid
      ≡ updated d msg.meta.remote_addr msg.message_id new_entry addr mid
unfolding enter entry_of
entry_of-enter expiration d msg addr mid =
    entry_of-put_entry d msg.meta.remote_addr msg.message_id new_entry addr mid

pub deduplicate_new :
    (expiration : ℕ) (d : Dedup) (msg : Message)
    → entry_of d msg.meta.remote_addr msg.message_id ≡ none
    → deduplicate expiration d msg ≡ (enter expiration d msg, new_entry, true)
unfolding deduplicate
deduplicate_new expiration d msg e = rw (e, deduplicate)

pub deduplicate_known :
    (expiration : ℕ) (d : Dedup) (msg : Message) {entry : DedupEntry}
    → entry_of d msg.meta.remote_addr msg.message_id ≡ some entry
    → deduplicate expiration d msg ≡ (d, entry, false)
unfolding deduplicate
deduplicate_known expiration d msg e = rw (e, deduplicate)

-- `deduplicate` says that a message is new exactly if its endpoint's table has no entry of its
-- message id. Then it enters a pending one and changes no other entry; a message id that is there
-- already leaves the table as it is and comes back with its entry.
pub deduplicate_cases :
    (expiration : ℕ) (d : Dedup) (msg : Message)
    → ((entry_of d msg.meta.remote_addr msg.message_id ≡ none)
        × (d' : Dedup) × (deduplicate expiration d msg ≡ (d', new_entry, true))
        × ((addr : Bytes) (mid : ℕ)
            → entry_of d' addr mid
              ≡ updated d msg.meta.remote_addr msg.message_id new_entry addr mid))
      ⊎ ((entry : DedupEntry) × (entry_of d msg.meta.remote_addr msg.message_id ≡ some entry)
          × (deduplicate expiration d msg ≡ (d, entry, false)))
deduplicate_cases expiration d msg =
    elim (Option-cases (entry_of d msg.meta.remote_addr msg.message_id)) [
      | inl e ↦ inl (
        e,
        enter expiration d msg,
        deduplicate_new expiration d msg e,
        entry_of-enter expiration d msg,
      )
      | inr (entry, e) ↦ inr (entry, e, deduplicate_known expiration d msg e)
    ]

pub entry_of-save :
    (d : Dedup) (from : Bytes) (m : ℕ) (rsp : Message) {old : DedupEntry} (addr : Bytes) (mid : ℕ)
    → entry_of d from m ≡ some old
    → entry_of (save d from m rsp) addr mid
      ≡ updated d from m (record { pending = false; rsp = some rsp }) addr mid
unfolding save
entry_of-save d from m rsp addr mid h =
    rw (h, save) (entry_of-put_entry d from m (record { pending = false; rsp = some rsp }) addr mid)

pub entered_here :
    (expiration : ℕ) (d : Dedup) (msg : Message)
    → entry_of (enter expiration d msg) msg.meta.remote_addr msg.message_id ≡ some new_entry
entered_here expiration d msg =
    entry_of-enter expiration d msg msg.meta.remote_addr msg.message_id
    ∙ rw (bytes_eq_refl msg.meta.remote_addr, ==_refl msg.message_id)

pub saved_here :
    (expiration : ℕ) (d : Dedup) (msg rsp : Message)
    → entry_of
        (save (enter expiration d msg) msg.meta.remote_addr msg.message_id rsp)
        msg.meta.remote_addr
        msg.message_id
      ≡ some (record { pending = false; rsp = some rsp })
saved_here expiration d msg rsp =
    entry_of-save (enter expiration d msg) msg.meta.remote_addr msg.message_id rsp
      msg.meta.remote_addr msg.message_id (entered_here expiration d msg)
    ∙ rw (bytes_eq_refl msg.meta.remote_addr, ==_refl msg.message_id)

-- A message that was new and whose response was saved: the same message id from the same endpoint
-- is then a duplicate that gets the saved response and leaves the table as it is, whatever the table
-- held before.
deduplicate-save :
    (expiration : ℕ) (d : Dedup) (msg again rsp : Message)
    → entry_of d msg.meta.remote_addr msg.message_id ≡ none
    → again.meta.remote_addr ≡ msg.meta.remote_addr
    → again.message_id ≡ msg.message_id
    → let d' = save (deduplicate expiration d msg).0 msg.meta.remote_addr msg.message_id rsp in
      deduplicate expiration d' again ≡ (d', record { pending = false; rsp = some rsp }, false)
deduplicate-save expiration d msg again rsp fresh ea em =
    let d1 = enter expiration d msg in
    rw (deduplicate_new expiration d msg fresh) (
      deduplicate_known expiration (save d1 msg.meta.remote_addr msg.message_id rsp) again
        (rw (ea, em) (saved_here expiration d msg rsp)))
