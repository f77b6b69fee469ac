-- ===== src/Dedup/Sendable.antt =====
-- dedup.go: the stored responses can be written.
use mathlib.Core.Path.{subst}
use coap.Base.{
  ℕ, ◌≡◌, refl, sym, ◌∙◌, Bool, true, false, Option, none, some, ◌==◌, if◌then◌else◌, bytes_eq,
  Bool-cases, ◌⊎◌, inl, inr, Option-cases,
}
use coap.Options.{Bytes}
use coap.Message.{Message}
use coap.Message.Sendable.{IsSendable}
use coap.Dedup.Expiry.{is_expired, entry_of-dedup_watcher}
use coap.Dedup.{dedup_watcher, DedupEntry, Dedup, entry_of, enter, new_entry, save}
use coap.Dedup.Once.{updated, entry_of-enter, entry_of-save}

-- A response, if there is one, can be written.
abbrev pub IsSendableReply : Option Message → Type 0
IsSendableReply none = Unit {0}
IsSendableReply (some m) = IsSendable m

abbrev pub IsSendableDedup : Dedup → Type 0
IsSendableDedup d =
    (addr : Bytes) (mid : ℕ) (entry : DedupEntry)
    → entry_of d addr mid ≡ some entry
    → IsSendableReply entry.rsp

-- An entry that is found is the changed one, or was there.
changed_or_old :
    (b c : Bool) (changed entry : DedupEntry) (old : Option DedupEntry)
    → (if b then (if c then some changed else old) else old) ≡ some entry
    → (changed ≡ entry) ⊎ (old ≡ some entry)
changed_or_old true true changed entry old e = inl cc
changed_or_old true false changed entry old e = inr e
changed_or_old false c changed entry old e = inr e

updated-IsSendable :
    (d d' : Dedup) (from : Bytes) (m : ℕ) (changed : DedupEntry)
    → ((addr : Bytes) (mid : ℕ) → entry_of d' addr mid ≡ updated d from m changed addr mid)
    → IsSendableReply changed.rsp
    → IsSendableDedup d
    → IsSendableDedup d'
updated-IsSendable d d' from m changed shape hc h addr mid entry e =
    elim (changed_or_old (bytes_eq from addr) (m == mid) changed entry (entry_of d addr mid)
      (sym (shape addr mid) ∙ e)) [
        | inl same ↦ subst (λ (x : DedupEntry). IsSendableReply x.rsp) same hc
        | inr old ↦ h addr mid entry old
      ]

pub enter-IsSendable :
    (expiration : ℕ) (d : Dedup) (msg : Message)
    → IsSendableDedup d
    → IsSendableDedup (enter expiration d msg)
enter-IsSendable expiration d msg =
    updated-IsSendable d (enter expiration d msg) msg.meta.remote_addr msg.message_id new_entry
      (entry_of-enter expiration d msg) tt

pub save-IsSendable :
    (d : Dedup) (addr : Bytes) (mid : ℕ) (rsp : Message)
    → IsSendable rsp
    → IsSendableDedup d
    → IsSendableDedup (save d addr mid rsp)
unfolding save
save-IsSendable d addr mid rsp hr h = elim (Option-cases (entry_of d addr mid)) [
  | inl e ↦ rw (e, save) h
  | inr (old, e) ↦
      updated-IsSendable d (save d addr mid rsp) addr mid
        (record { pending = false; rsp = some rsp }) (λ a k. entry_of-save d addr mid rsp a k e) hr
        h
]

pub dedup_watcher-IsSendable :
    (now : ℕ) (d : Dedup) → IsSendableDedup d → IsSendableDedup (dedup_watcher now d)
dedup_watcher-IsSendable now d h addr mid entry e =
    elim (Bool-cases (is_expired now addr d.dedup_delete_after)) [
      | inl z ↦
          let gone : entry_of (dedup_watcher now d) addr mid ≡ none =
            entry_of-dedup_watcher now d addr mid ∙ rw z refl in
          cc
      | inr z ↦ h addr mid entry (sym (entry_of-dedup_watcher now d addr mid ∙ rw z refl) ∙ e)
    ]
