-- ===== src/Observe.antt =====
-- observe.go, and blockRetreive of send.go: the table of observations, and the retrieval of a
-- notification's further blocks.
-- Callbacks are values of any type `O`, with their argument. `ObserveNotFoundCallback` may register
-- observations, and is a function of the table.
pub mod Remote
pub mod Retrieval
pub mod Calm
use coap.Base.{
  ℕ, zero, suc, Bool, true, false, List, [], ◌∷◌, ◌++◌, Option, none, some, if◌then◌else◌, Result,
  ok, err, panic, stuck, bytes_eq,
}
use coap.Base.Int.{ℤ}
use coap.Base.Maps.{load, store, delete, string_key}
use coap.Options.{Bytes}
use coap.Message.{Message, new_message, type_confirmable, with_path_string, with_content_format}
use coap.Block.{block_init, get_block2, with_block2}

pub record Observation (O : Type 0) : Type 0 where
  pub path : Bytes
  pub callback : O

abbrev pub ObserveMap : Type 0 → Type 0
ObserveMap O = List (Bytes × Observation O)

abbrev pub NotFound : Type 0 → Type 0
NotFound O = Message → ObserveMap O → ObserveMap O × Bool

module _ {O : Type 0} where
  unfoldable pub observe_register : ObserveMap O → Bytes → Bytes → O → ObserveMap O
  observe_register m token path callback =
      store token (record { path = path; callback = callback }) m

  -- The table's part of `ObserveCancel`.
  unfoldable pub observe_forget : ObserveMap O → Bytes → ObserveMap O
  observe_forget m token = delete token m

  unfoldable pub observe_tokens : ObserveMap O → List Bytes
  observe_tokens [] = []
  observe_tokens ((token, _) ∷ m) = token ∷ observe_tokens m

  -- A token that the callback does not answer for finds nothing.
  abbrev look_again : Bytes → ObserveMap O × Bool → ObserveMap O × Option (Observation O)
  look_again token (m, true) = (m, load token m)
  look_again token (m, false) = (m, none)

  unfoldable pub get_observe :
      Option (NotFound O) → ObserveMap O → Message → ObserveMap O × Option (Observation O)
  get_observe not_found m msg = elim (load msg.token m) [
    | some o ↦ (m, some o)
    | none ↦ elim not_found [ none ↦ (m, none) | some f ↦ look_again msg.token (f msg m) ]
  ]

-- The request for one further block.
unfoldable pub block_request : Bytes → ℤ → ℕ → ℕ → Message
block_request path af block size =
    let code : ℕ = if bytes_eq path [] then 5 else 1 in
    let msg = record (with_path_string new_message path) { type = type_confirmable; code = code } in
    with_content_format (with_block2 msg (some (block_init block false size))) af

-- `send` to one address: the state behind it, the message as it is changed in place, and the response.
abbrev pub Sender : Type 0 → Type 0
Sender S = S → Message → S × Message × Result (Option Message)

-- What a handler sends while it handles: `send` to any address, and how many rounds the loop of
-- `blockRetreive` is followed, since a peer may keep it going for ever.
pub record Links (S : Type 0) : Type 0 where
  pub rounds : ℕ
  pub send_to : Bytes → Sender S

-- No sends.
abbrev pub no_links : {S : Type 0} → Links S
no_links = record { rounds = 0; send_to = λ addr s m. (s, m, stuck) }

module _ {S : Type 0} (send : Sender S) (path : Bytes) (af : ℤ) where
  -- A response to a request for a block: the data goes on with its payload, and the loop goes on if
  -- there are more blocks. A response that is nil is read without a test.
  abbrev gather :
      S → Bytes → Result (Option Message) → (ℕ → Bytes → S × Result Bytes) → S × Result Bytes
  gather s before (err e) next = (s, err e)
  gather s before panic next = (s, panic)
  gather s before stuck next = (s, stuck)
  gather s before (ok none) next = (s, panic)
  gather s before (ok (some rsp)) next = elim (get_block2 rsp) [
    | none ↦ (s, ok (before ++ rsp.payload))
    | some block2 ↦
        let rest = next block2.size (before ++ rsp.payload) in
        if block2.more then rest else (s, ok (before ++ rsp.payload))
  ]

  -- The loop of `blockRetreive`, with so many rounds left.
  unfoldable pub retrieve : ℕ → ℕ → ℕ → S → Bytes → S × Result Bytes
  retrieve zero block size s before = (s, stuck)
  retrieve (suc rounds) block size s before =
      let (s', _, r) = send s (block_request path af block size) in
      gather s' before r λ size' before'. retrieve rounds (suc block) size' s' before'
