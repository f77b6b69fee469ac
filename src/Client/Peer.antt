-- ===== src/Client/Peer.antt =====
-- send.go: what the first loop of Send needs of the peer that it sends the blocks to.
use coap.Base.{ℕ, suc, ◌^◌, ◌<◌, ◌≡◌, Bool, true, false, ◌++◌, some, ok}
use coap.Options.{Bytes}
use coap.Message.{Message}
use coap.Block.{BlockMetadata, block_init, get_block1}
use coap.Observe.{Sender}
use coap.Client.{part}

module _ {S : Type 0} (send : Sender S) (sz : ℕ) where
  -- The peer takes a block: it answers 2.31 with the block's own option.
  abbrev pub IsTaken : (Message → Type 0) → (S → Type 0) → S → Message → Type 0
  IsTaken IsFor Holds s m =
      (s' : S) × (m' : Message) × (rsp : Message) × (send s m ≡ (s', m', ok (some rsp)))
      × (rsp.code ≡ 95)
      × (get_block1 rsp ≡ get_block1 m)
      × IsFor m'
      × Holds s'

  -- What the loop needs of its peer, for the messages `IsFor` one request, from a state that is
  -- `Ready` on. `Has s n b`: the blocks
  -- 0 to `n` have come, and hold `b`. `Done s b rsp`: all of `b` has come, and `rsp` is the answer.
  pub record Collector : Type 1 where
    pub IsFor : Message → Type 0
    pub Ready : S → Type 0
    pub Has : S → ℕ → Bytes → Type 0
    pub Done : S → Bytes → Message → Type 0
    pub part_is_for :
        (m : Message) (whole chunk : Bytes) (more : Bool) (num : ℕ)
        → IsFor m
        → IsFor (part m whole chunk more sz num)
    pub first :
        (s : S) (m : Message)
        → Ready s
        → IsFor m
        → get_block1 m ≡ some (block_init 0 true sz)
        → IsTaken IsFor (λ s'. Has s' 0 m.payload) s m
    pub next :
        (s : S) (m : Message) (n : ℕ) (b : Bytes)
        → suc n < 2 ^ 20
        → Has s n b
        → IsFor m
        → get_block1 m ≡ some (block_init (suc n) true sz)
        → IsTaken IsFor (λ s'. Has s' (suc n) (b ++ m.payload)) s m
    pub last :
        (s : S) (m : Message) (n : ℕ) (b : Bytes)
        → suc n < 2 ^ 20
        → Has s n b
        → IsFor m
        → get_block1 m ≡ some (block_init (suc n) false sz)
        → (s' : S) × (m' : Message) × (rsp : Message) × (block1 : BlockMetadata) × (send s m
            ≡ (s', m', ok (some rsp)))
          × (get_block1 rsp ≡ some block1)
          × IsFor m'
          × Done s' (b ++ m.payload) rsp
