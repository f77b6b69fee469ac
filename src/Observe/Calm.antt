-- ===== src/Observe/Calm.antt =====
-- blockRetreive of send.go: panics of the retrieval.
use coap.Base.{
  bytes_eq, [], ◌≢◌, ℕ, zero, suc, ◌≡◌, refl, Bool, true, false, ◌++◌, Option, none, some, Result,
  ok, err, panic, stuck, NoPanic, if◌then◌else◌, Bool-cases, Option-cases, inl, inr,
}
use coap.Base.Int.{ℤ}
use coap.Options.{Bytes}
use coap.Message.{
  new_message, type_confirmable, Message, with_path_string, with_path, with_content_format,
  with_option, is_no_media,
}
use coap.Message.Sendable.{
  IsSendable, with_block-IsSendable, with_path_string-IsSendable, with_content_format-IsSendable,
}
use coap.Block.{block_init, get_block2, with_block2, with_block}
use coap.Observe.{Links, block_request, gather, retrieve}

-- What a send returns: a response, unless the message is not a confirmable one.
abbrev pub IsReturned : Message → Option Message → Type 0
IsReturned m (some rsp) = Unit {0}
IsReturned m none = m.type ≢ 0

-- A handler's sends keep the state as it must be, and do not panic on a message that can be written;
-- a confirmable message that is sent without an error has a response.
pub record AreCalm {S : Type 0} (Keeps : S → Type 0) (links : Links S) : Type 0 where
  pub kept :
      (addr : Bytes) (s : S) (m : Message)
      → Keeps s
      → IsSendable m
      → Keeps (links.send_to addr s m).0
  pub returned :
      (addr : Bytes) (s : S) (m : Message)
      → Keeps s
      → IsSendable m
      → NoPanic (IsReturned m) (links.send_to addr s m).2

block_request-IsSendable :
    (path : Bytes) (af : ℤ) (block size : ℕ) → IsSendable (block_request path af block size)
unfolding block_request
block_request-IsSendable path af block size =
    let code : ℕ = if bytes_eq path [] then 5 else 1 in
    let msg = record (with_path_string new_message path) { type = type_confirmable; code = code } in
    let bm = block_init block false size in
    with_content_format-IsSendable (with_block2 msg (some bm)) af
      (with_block-IsSendable msg (some bm) (with_path_string-IsSendable new_message path tt)).1

type-block_request :
    (path : Bytes) (af : ℤ) (block size : ℕ) → (block_request path af block size).type ≡ 0
unfolding block_request with_path_string with_path with_content_format with_option with_block2
    with_block
type-block_request path af block size = elim (Bool-cases (is_no_media af)) [
  | inl e ↦ rw e refl
  | inr e ↦ rw e refl
]

module _ {S : Type 0} (Keeps : S → Type 0) (links : Links S) (calm : AreCalm Keeps links)
    (addr path : Bytes) (af : ℤ) where
  abbrev IsCalmRun : S × Result Bytes → Type 0
  IsCalmRun (s, r) = Keeps s × NoPanic (λ _. Unit {0}) r

  either-IsCalmRun :
      (b : Bool) (x y : S × Result Bytes)
      → IsCalmRun x
      → IsCalmRun y
      → IsCalmRun (if b then x else y)
  either-IsCalmRun true x y h k = h
  either-IsCalmRun false x y h k = k

  gather-IsCalm :
      (s : S) (before : Bytes) (m : Message) (r : Result (Option Message))
      (next : ℕ → Bytes → S × Result Bytes)
      → Keeps s
      → m.type ≡ 0
      → NoPanic (IsReturned m) r
      → ((size : ℕ) (b : Bytes) → IsCalmRun (next size b))
      → IsCalmRun (gather (links.send_to addr) path af s before r next)
  gather-IsCalm s before m (err e) next h ht hr hn = (h, tt)
  gather-IsCalm s before m stuck next h ht hr hn = (h, tt)
  gather-IsCalm s before m panic next h ht hr hn = absurd hr
  gather-IsCalm s before m (ok none) next h ht hr hn = absurd (hr ht)
  gather-IsCalm s before m (ok (some rsp)) next h ht hr hn = elim (Option-cases (get_block2 rsp)) [
    | inl e ↦ rw (e, gather) (h, tt)
    | inr (block2, e) ↦
        rw (e, gather)
          (either-IsCalmRun block2.more (next block2.size (before ++ rsp.payload))
            (s, ok (before ++ rsp.payload)) (hn block2.size (before ++ rsp.payload)) (h, tt))
  ]

  pub retrieve-IsCalm :
      (rounds block size : ℕ) (s : S) (before : Bytes)
      → Keeps s
      → IsCalmRun (retrieve (links.send_to addr) path af rounds block size s before)
  unfolding retrieve
  retrieve-IsCalm zero block size s before h = (h, tt)
  retrieve-IsCalm (suc rounds) block size s before h =
      let m = block_request path af block size in
      let kept = calm.kept addr s m h (block_request-IsSendable path af block size) in
      gather-IsCalm (links.send_to addr s m).0 before m (links.send_to addr s m).2
        (λ size' b.
          retrieve (links.send_to addr) path af rounds (suc block) size' (links.send_to addr s m).0
            b)
        kept (type-block_request path af block size)
        (calm.returned addr s m h (block_request-IsSendable path af block size))
        (λ size' b. retrieve-IsCalm rounds (suc block) size' (links.send_to addr s m).0 b kept)
