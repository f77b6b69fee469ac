-- ===== src/Handler/Once.antt =====
-- handler.go and dedup.go together: a message id of an endpoint is handled once.
use coap.Observe.{Links}
use coap.Base.{
  ◌≡◌, refl, false, List, Option, none, some, if◌then◌else◌, arith, Result, ok, err, panic, stuck,
  ◌>>=◌, ◌≤◌, sym, ap, ◌∙◌,
}
use coap.Options.{Bytes, Value}
use coap.Message.{Message}
use coap.Dedup.{Dedup, DedupEntry, entry_of, enter, new_entry, deduplicate}
use coap.Dedup.Once.{deduplicate_new, deduplicate_known, entered_here, saved_here}
use coap.Dispatch.{Callbacks, Tables}
use coap.Transfer.{Config}
use coap.Handler.{Server, handle_new, handle_message, stamp, after_deduplicate, saved}

module _ {C O : Type 0} (to_string_array : List Value → List Bytes) (callbacks : Callbacks C O)
    (cfg : Config) where
  handle_message-deduplicated :
      (links : Links (Tables C O)) (s : Server C O) (req : Message)
      → req.type ≤ 1
      → handle_message to_string_array callbacks cfg links s req
        ≡ after_deduplicate to_string_array callbacks cfg links s req
            (deduplicate cfg.deduplicate_expiration s.dedup req)
  unfolding handle_message
  handle_message-deduplicated links s req h = ground arith

  handled_shape :
      (m : Result (Tables C O × Option Message)) (d : Dedup) (req : Message) {s' : Server C O}
      {rsp : Option Message}
      → (m >>= λ r. ok (saved to_string_array callbacks cfg d req r)) ≡ ok (s', rsp)
      → (t : Tables C O) × (s' ≡ (saved to_string_array callbacks cfg d req (t, rsp)).0)
  handled_shape (ok (t, none)) d req e = (t, cc)
  handled_shape (ok (t, some rsp)) d req e = (t, cc)
  handled_shape (err x) d req e = cc
  handled_shape panic d req e = cc
  handled_shape stuck d req e = cc

  handle_message-known :
      (links : Links (Tables C O)) (s : Server C O) (req : Message) {entry : DedupEntry}
      → req.type ≤ 1
      → entry_of s.dedup req.meta.remote_addr req.message_id ≡ some entry
      → handle_message to_string_array callbacks cfg links s req
        ≡ ok (s, if entry.pending then none else stamp cfg req entry.rsp)
  handle_message-known links s req h e =
      handle_message-deduplicated links s req h
      ∙ ap (after_deduplicate to_string_array callbacks cfg links s req)
          (deduplicate_known cfg.deduplicate_expiration s.dedup req e)

  -- What the table holds after the first handling.
  abbrev left_entry : Option Message → DedupEntry
  left_entry none = new_entry
  left_entry (some rsp) = record { pending = false; rsp = some rsp }

  left_entry-saved :
      (d : Dedup) (req : Message) (t : Tables C O) (rsp : Option Message)
      → let d' = enter cfg.deduplicate_expiration d req in
        entry_of
          ((saved to_string_array callbacks cfg d' req (t, rsp)).0).dedup
          req.meta.remote_addr
          req.message_id
        ≡ some (left_entry rsp)
  left_entry-saved d req t none = entered_here cfg.deduplicate_expiration d req
  left_entry-saved d req t (some rsp) = saved_here cfg.deduplicate_expiration d req rsp

  left_reply :
      (later : Config) (req : Message) (rsp : Option Message)
      → (if (left_entry rsp).pending then none else stamp later req (left_entry rsp).rsp)
        ≡ stamp later req rsp
  left_reply later req none = refl
  left_reply later req (some rsp) = refl

module _ {C O : Type 0} (to_string_array : List Value → List Bytes) (callbacks : Callbacks C O)
    (cfg later : Config) where
  -- A confirmable or non-confirmable message that is new, whatever its handling did to the server
  -- and whether it gave a reply: the same message id of the same endpoint is then, also with another
  -- clock, answered with that reply, with the metadata of the second message, or not at all if there
  -- was none, and leaves the server as it is.
  pub handle_message-again :
      (links links' : Links (Tables C O)) (s s' : Server C O) (req again : Message)
      (rsp : Option Message)
      → req.type ≤ 1
      → again.type ≤ 1
      → again.meta.remote_addr ≡ req.meta.remote_addr
      → again.message_id ≡ req.message_id
      → entry_of s.dedup req.meta.remote_addr req.message_id ≡ none
      → handle_message to_string_array callbacks cfg links s req ≡ ok (s', rsp)
      → handle_message to_string_array callbacks later links' s' again
        ≡ ok (s', stamp later again rsp)
  handle_message-again links links' s s' req again rsp h h' ea em fresh e =
      let d = enter cfg.deduplicate_expiration s.dedup req in
      let first =
        ap (after_deduplicate to_string_array callbacks cfg links s req)
          (sym (deduplicate_new cfg.deduplicate_expiration s.dedup req fresh))
        ∙ sym (handle_message-deduplicated to_string_array callbacks cfg links s req h)
        ∙ e in
      let (t, shape) =
        handled_shape to_string_array callbacks cfg
          (handle_new to_string_array callbacks cfg links s.tables req) d req first in
      let entry : entry_of s'.dedup again.meta.remote_addr again.message_id
          ≡ some (left_entry to_string_array callbacks cfg rsp) =
        rw (shape, ea, em) (left_entry-saved to_string_array callbacks cfg s.dedup req t rsp) in
      handle_message-known to_string_array callbacks later links' s' again h' entry
      ∙ ap (λ r. ok (s', r)) (left_reply to_string_array callbacks cfg later again rsp)
