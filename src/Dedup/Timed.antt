-- ===== src/Dedup/Timed.antt =====
-- dedup.go: every endpoint that has entries has a time after which the watcher deletes them.
use coap.Base.{
  ℕ, ◌+◌, ◌<◌, ◌≡◌, refl, sym, ap, ◌∙◌, Bool, true, false, List, [], ◌∷◌, Option, none, some,
  if◌then◌else◌, ltb, arith, bytes_eq, bytes_eq_iff, Bool-cases, inl, inr, All, Option-cases,
}
use coap.Base.Maps.{load, delete, number_key, string_key, load-delete, load-store, load-store_self}
use coap.Options.{Bytes}
use coap.Message.{Message}
use coap.Dedup.Once.{updated, entry_of-enter, entry_of-save}
use coap.Dedup.{
  DedupEntry, Dedup, entry_of, enter, new_entry, save_at, put_entry, save, watch, dedup_watcher,
}
use coap.Dedup.Expiry.{is_expired, entry_of-dedup_watcher, entry_of-delete}

-- Each entry is of an endpoint that has a time.
abbrev pub IsTimed : Dedup → Type 0
IsTimed d =
    (addr : Bytes) (mid : ℕ) (entry : DedupEntry)
    → entry_of d addr mid ≡ some entry
    → (t : ℕ) × (load addr d.dedup_delete_after ≡ some t)

IsTimed-delete :
    (a : Bytes) (d : Dedup)
    → IsTimed d
    → IsTimed (record {
      dedup_map = delete a d.dedup_map;
      dedup_delete_after = delete a d.dedup_delete_after;
    })
IsTimed-delete a d h addr mid entry e =
    let shape = entry_of-delete d a addr mid (delete a d.dedup_delete_after) in
    let times = d.dedup_delete_after in
    let left = λ (b : Bool). if b then none else entry_of d addr mid in
    elim (Bool-cases (bytes_eq a addr)) [
      | inl z ↦ let gone = shape ∙ ap left z in cc
      | inr z ↦
          let (t, et) = h addr mid entry (sym (shape ∙ ap left z) ∙ e) in
          (
            t,
            load-delete a addr times
                ∙ ap (λ (b : Bool). if b then none else load addr times) z
                ∙ et,
          )
    ]

-- One entry changes, of an endpoint that has a time, and the other endpoints keep their times.
IsTimed-updated :
    (d d' : Dedup) (from : Bytes) (m t : ℕ) (changed : DedupEntry)
    → ((addr : Bytes) (mid : ℕ) → entry_of d' addr mid ≡ updated d from m changed addr mid)
    → load from d'.dedup_delete_after ≡ some t
    → ((addr : Bytes)
        → bytes_eq from addr ≡ false
        → load addr d'.dedup_delete_after ≡ load addr d.dedup_delete_after)
    → IsTimed d
    → IsTimed d'
IsTimed-updated d d' from m t changed shape timed others h addr mid entry e =
    elim (Bool-cases (bytes_eq from addr)) [
      | inl z ↦
          let here : from ≡ addr = (bytes_eq_iff from addr).0 z in
          (t, ap (λ a. load a d'.dedup_delete_after) (sym here) ∙ timed)
      | inr z ↦
          let (t', et) = h addr mid entry (sym (shape addr mid ∙ rw z refl) ∙ e) in
          (t', others addr z ∙ et)
    ]

pub IsTimed-enter :
    (expiration : ℕ) (d : Dedup) (msg : Message) → IsTimed d → IsTimed (enter expiration d msg)
unfolding enter
IsTimed-enter expiration d msg =
    let from = msg.meta.remote_addr in
    let t = msg.meta.received_at + expiration in
    IsTimed-updated d (enter expiration d msg) from msg.message_id t new_entry
      (entry_of-enter expiration d msg) (load-store_self from t d.dedup_delete_after)
      (λ addr z. load-store from addr t d.dedup_delete_after ∙ rw z refl)

times-save :
    (d : Dedup) (addr : Bytes) (mid : ℕ) (rsp : Message) (old : Option DedupEntry)
    → entry_of d addr mid ≡ old
    → (save d addr mid rsp).dedup_delete_after ≡ d.dedup_delete_after
unfolding save save_at put_entry
times-save d addr mid rsp none e = rw (e, save) refl
times-save d addr mid rsp (some old) e = rw (e, save) refl

pub IsTimed-save :
    (d : Dedup) (addr : Bytes) (mid : ℕ) (rsp : Message) → IsTimed d → IsTimed (save d addr mid rsp)
unfolding save
IsTimed-save d addr mid rsp h = elim (Option-cases (entry_of d addr mid)) [
  | inl e ↦ rw (e, save) h
  | inr (old, e) ↦
      let (t, et) = h addr mid old e in
      let same_times = times-save d addr mid rsp (some old) e in
      IsTimed-updated d (save d addr mid rsp) addr mid t
        (record { pending = false; rsp = some rsp }) (λ a k. entry_of-save d addr mid rsp a k e)
        (ap (load addr) same_times ∙ et) (λ a z. ap (load a) same_times) h
]

IsTimed-either :
    (test : Bool) (d e : Dedup) → IsTimed d → IsTimed e → IsTimed (if test then d else e)
IsTimed-either true d e h k = h
IsTimed-either false d e h k = k

IsTimed-watch :
    (now : ℕ) (times : List (Bytes × ℕ)) (d : Dedup) → IsTimed d → IsTimed (watch now times d)
unfolding watch
IsTimed-watch now [] d h = h
IsTimed-watch now ((a, t) ∷ times) d h =
    let d' : Dedup = record {
      dedup_map = delete a d.dedup_map;
      dedup_delete_after = delete a d.dedup_delete_after;
    } in
    IsTimed-watch now times (if ltb t now then d' else d)
      (IsTimed-either (ltb t now) d' d (IsTimed-delete a d h) h)

pub IsTimed-dedup_watcher : (now : ℕ) (d : Dedup) → IsTimed d → IsTimed (dedup_watcher now d)
unfolding dedup_watcher
IsTimed-dedup_watcher now d = IsTimed-watch now d.dedup_delete_after d

-- Whether all times have passed.
abbrev pub AllPast : ℕ → List (Bytes × ℕ) → Type 0
AllPast now times = All (λ (p : Bytes × ℕ). p.1 < now) times

is_expired-load :
    (now t : ℕ) (addr : Bytes) (times : List (Bytes × ℕ))
    → AllPast now times
    → load addr times ≡ some t
    → is_expired now addr times ≡ true
unfolding is_expired load
is_expired-load now t addr [] h e = cc
is_expired-load now t addr ((a, u) ∷ times) h e = elim (Bool-cases (bytes_eq a addr)) [
  | inl z ↦ ground (arith, z)
  | inr z ↦ ground (arith, z, is_expired-load now t addr times)
]

pub all_forgotten :
    (now : ℕ) (d : Dedup) (addr : Bytes) (mid : ℕ)
    → IsTimed d
    → AllPast now d.dedup_delete_after
    → entry_of (dedup_watcher now d) addr mid ≡ none
all_forgotten now d addr mid h past =
    entry_of-dedup_watcher now d addr mid ∙ (elim (Option-cases (entry_of d addr mid)) [
      | inl e ↦ ground (arith, e)
      | inr (entry, e) ↦
          let (t, et) = h addr mid entry e in
          rw (is_expired-load now t addr d.dedup_delete_after past et) refl
    ])
