-- ===== src/Handler/Lifetime.antt =====
-- handler.go, dedup.go and blockwise.go: the server's goroutines, in any order.
-- Between its messages, the server runs rounds of the watcher of message ids and of the one that
-- expires cached blocks.
use coap.Observe.{Links}
use coap.Base.{
  ℕ, ◌≡◌, ap, sym, ◌||◌, List, [], Option, none, some, ◌==◌, Bool-cases, inl, inr, Option-cases, ok,
  OnSuccess, OnSuccess-any, >>=-OnSuccess,
}
use mathlib.Core.Path.{subst}
use coap.Options.{Bytes, Value}
use coap.Message.{Message, type_confirmable, type_non_confirmable, type_reset}
use coap.Base.Maps.{load, string_key, number_key}
use coap.Cache.{expire_blocks}
use coap.Dedup.{Dedup, endpoint_of, entry_of, enter, dedup_watcher, deduplicate}
use coap.Dedup.Once.{deduplicate_new, deduplicate_known}
use coap.Dedup.Timed.{
  IsTimed, IsTimed-enter, IsTimed-save, IsTimed-dedup_watcher, AllPast, all_forgotten,
}
use coap.Dispatch.{Callbacks, Tables}
use coap.Transfer.{Config}
use coap.Handler.{Server, handle_new, handle_message, after_deduplicate, saved}

module _ {C O : Type 0} (to_string_array : List Value → List Bytes)
    (callbacks : Callbacks C O) where
  -- What happens to a server: a message, at the clock of a configuration, that it handles without a
  -- panic, or a round of one of the two watchers.
  pub data Step (s s' : Server C O) : Type 0 where
    handled :
        (cfg : Config) (links : Links (Tables C O)) (req : Message) (rsp : Option Message)
        → handle_message to_string_array callbacks cfg links s req ≡ ok (s', rsp)
        → Step s s'
    watched : (now : ℕ) → s' ≡ record s { dedup = dedup_watcher now s.dedup } → Step s s'
    expired :
        (now : ℕ)
        → s' ≡ record s {
          tables = record s.tables { block_cache = expire_blocks now s.tables.block_cache };
        }
        → Step s s'

  -- Where a server comes to.
  pub data Reach (start : Server C O) : Server C O → Type 0 where
    here : Reach start start
    next : {s s' : Server C O} → Reach start s → Step s s' → Reach start s'

  abbrev Keeps : Server C O × Option Message → Type 0
  Keeps r = IsTimed r.0.dedup

  saved-IsTimed :
      (cfg : Config) (d : Dedup) (req : Message) (r : Tables C O × Option Message)
      → IsTimed d
      → Keeps (saved to_string_array callbacks cfg d req r)
  saved-IsTimed cfg d req (t, none) h = h
  saved-IsTimed cfg d req (t, some rsp) h = IsTimed-save d req.meta.remote_addr req.message_id rsp h

  after_deduplicate-IsTimed :
      (cfg : Config) (links : Links (Tables C O)) (s : Server C O) (req : Message)
      → IsTimed s.dedup
      → OnSuccess Keeps (
          after_deduplicate to_string_array callbacks cfg links s req
            (deduplicate cfg.deduplicate_expiration s.dedup req))
  after_deduplicate-IsTimed cfg links s req h =
      elim (Option-cases (entry_of s.dedup req.meta.remote_addr req.message_id)) [
        | inl e ↦
            let d = enter cfg.deduplicate_expiration s.dedup req in
            let timed = IsTimed-enter cfg.deduplicate_expiration s.dedup req h in
            rw (deduplicate_new cfg.deduplicate_expiration s.dedup req e) (
              >>=-OnSuccess (λ _. Unit {0}) Keeps
                (handle_new to_string_array callbacks cfg links s.tables req)
                (λ r. ok (saved to_string_array callbacks cfg d req r)) (OnSuccess-any _)
                (λ r _. saved-IsTimed cfg d req r timed))
        | inr (entry, e) ↦ rw (deduplicate_known cfg.deduplicate_expiration s.dedup req e) h
      ]

  handle_message-IsTimed :
      (cfg : Config) (links : Links (Tables C O)) (s : Server C O) (req : Message)
      → IsTimed s.dedup
      → OnSuccess Keeps (handle_message to_string_array callbacks cfg links s req)
  unfolding handle_message
  handle_message-IsTimed cfg links s req h = elim (Bool-cases (req.type == type_reset)) [
    | inl z ↦ rw z h
    | inr z ↦
        rw z
          (elim (Bool-cases
            ((req.type == type_confirmable) || (req.type == type_non_confirmable))) [
              | inl y ↦ rw y (after_deduplicate-IsTimed cfg links s req h)
              | inr y ↦ rw y (
                  >>=-OnSuccess (λ _. Unit {0}) Keeps
                    (handle_new to_string_array callbacks cfg links s.tables req)
                    (λ (t, rsp). ok (record s { tables = t }, rsp)) (OnSuccess-any _) (λ r _. h))
            ])
  ]

  Step-IsTimed : {s s' : Server C O} → Step s s' → IsTimed s.dedup → IsTimed s'.dedup
  Step-IsTimed {s} (handled cfg links req rsp e) h =
      subst (OnSuccess Keeps) e (handle_message-IsTimed cfg links s req h)
  Step-IsTimed {s} (watched now e) h =
      subst (λ (x : Server C O). IsTimed x.dedup) (sym e) (IsTimed-dedup_watcher now s.dedup h)
  Step-IsTimed {s} (expired now e) h = subst (λ (x : Server C O). IsTimed x.dedup) (sym e) h

  Reach-IsTimed : {start s : Server C O} → IsTimed start.dedup → Reach start s → IsTimed s.dedup
  Reach-IsTimed h here = h
  Reach-IsTimed h (next r st) = Step-IsTimed st (Reach-IsTimed h r)

  -- The memory of message ids does not leak. From a server without any, after whatever messages and
  -- rounds of the two watchers in whatever order: once the times of all endpoints have passed, one
  -- more round of the watcher leaves no entry of any endpoint and message id.
  pub Reach-forgets :
      (start s : Server C O) (now : ℕ) (addr : Bytes) (mid : ℕ)
      → Reach start s
      → start.dedup.dedup_map ≡ []
      → AllPast now s.dedup.dedup_delete_after
      → entry_of (dedup_watcher now s.dedup) addr mid ≡ none
  unfolding entry_of load
  Reach-forgets start s now addr mid r empty past =
      let nothing : IsTimed start.dedup = λ a k entry e.
        let gone : entry_of start.dedup a k ≡ none =
          ap (λ m. load k (endpoint_of (load a m))) empty in
        cc in
      all_forgotten now s.dedup addr mid (Reach-IsTimed nothing r) past
