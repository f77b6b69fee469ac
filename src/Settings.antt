-- ===== src/Settings.antt =====
-- coap.go and send_options.go: the settings of a server, the options of a Send, and random tokens.
-- The timers of the options are left out; `Ref` is a value of any type `R`, and a nil callback is
-- `none`.
use coap.Names.{codes}
use coap.Base.{
  zero, suc, ◌∷◌, ◌%◌, map, length, ℕ, ◌*◌, Bool, true, false, ltb, if◌then◌else◌, Option, none,
  some, List, [], ◌≡◌, ◌<◌, refl, Bool-cases, inl, inr, arith,
}
use coap.Base.Int.{ℤ, pos, negsuc}
use coap.Options.{Bytes}
use coap.Client.{SendOptions}

-- `Config`
pub record Settings (N P R : Type 0) : Type 0 where
  pub deduplicate_expiration : ℤ
  pub deduplicate_interval : ℤ
  pub observe_not_found_callback : Option N
  pub block_default_size : ℤ
  pub block_inactivity_timeout : ℤ
  pub max_message_default_size : ℤ
  pub n_start : ℤ
  pub name : Bytes
  pub ref : Option R
  pub proxy_callbacks : List (Bytes × P)

-- `x > 0`
unfoldable pub is_positive : ℤ → Bool
is_positive (pos n) = ltb 0 n
is_positive (negsuc n) = false

-- The value that was asked for, if it is positive.
unfoldable pub positive_or : ℤ → ℤ → ℤ
unfolding is_positive
positive_or x default = if is_positive x then x else default

unfoldable pub first_some {ℓ} : {A : Type ℓ} → Option A → Option A → Option A
first_some none b = b
first_some (some a) b = some a

-- Nanoseconds.
abbrev second : ℕ
second = 1000000000

-- A size of the settings, as a number: that of `NewServer` is not negative.
unfoldable pub size_of : ℤ → ℕ
size_of (pos n) = n
size_of (negsuc n) = 0

module _ {N P R : Type 0} where
  unfoldable pub new_config : Settings N P R
  new_config = record {
    deduplicate_expiration = pos (600 * second);
    deduplicate_interval = pos (20 * second);
    observe_not_found_callback = none;
    block_default_size = pos 1024;
    block_inactivity_timeout = pos (120 * second);
    max_message_default_size = pos 0;
    n_start = pos 1;
    name = [];
    ref = none;
    proxy_callbacks = [];
  }

  -- The settings of `NewServer`.
  unfoldable pub server_config : Option (Settings N P R) → Settings N P R
  unfolding new_config positive_or first_some
  server_config none = new_config
  server_config (some conf) = record new_config {
    deduplicate_expiration =
        positive_or conf.deduplicate_expiration new_config.deduplicate_expiration;
    deduplicate_interval = positive_or conf.deduplicate_interval new_config.deduplicate_interval;
    observe_not_found_callback =
        first_some conf.observe_not_found_callback new_config.observe_not_found_callback;
    block_default_size = positive_or conf.block_default_size new_config.block_default_size;
    block_inactivity_timeout =
        positive_or conf.block_inactivity_timeout new_config.block_inactivity_timeout;
    n_start = positive_or conf.n_start new_config.n_start;
    name = conf.name;
    ref = conf.ref;
    proxy_callbacks = conf.proxy_callbacks;
  }

  unfoldable pub new_options : Settings N P R → SendOptions
  unfolding size_of
  new_options conf = record {
    max_retransmit = pos 3;
    block_size = size_of conf.block_default_size;
    max_message_size = size_of conf.max_message_default_size;
    n_start = conf.n_start;
  }

abbrev alphabet : Bytes
alphabet = codes "01234567890ABCDEFGHIJKLMNOPQRSTUVWXYZabcdefghijklmnopqrstuvwxyz"

abbrev byte_at : Bytes → ℕ → ℕ
byte_at [] n = 0
byte_at (b ∷ s) zero = b
byte_at (b ∷ s) (suc n) = byte_at s n

-- `randomString`, on the random bytes that it fills its buffer with.
unfoldable pub random_string : Bytes → Bytes
random_string random = map (λ b. byte_at alphabet (b % length alphabet)) random

unfoldable pub with_retry : SendOptions → ℤ → SendOptions
with_retry so count = record so { max_retransmit = count }

unfoldable pub with_block_size : SendOptions → ℕ → SendOptions
with_block_size so bs = record so { block_size = bs }

unfoldable pub with_max_message_size : SendOptions → ℕ → SendOptions
with_max_message_size so ms = record so { max_message_size = ms }

unfoldable pub with_n_start : SendOptions → ℤ → SendOptions
with_n_start so ns = record so { n_start = ns }

unfoldable pub no_retry : SendOptions → SendOptions
no_retry so = record so { max_retransmit = negsuc 0 }

-- The settings of a server that are sizes, times and counts.
pub record IsUsable {N P R : Type 0} (conf : Settings N P R) : Type 0 where
  pub expires : is_positive conf.deduplicate_expiration ≡ true
  pub watched : is_positive conf.deduplicate_interval ≡ true
  pub blocks : is_positive conf.block_default_size ≡ true
  pub active : is_positive conf.block_inactivity_timeout ≡ true
  pub starts : is_positive conf.n_start ≡ true
  pub options_blocks : 0 < (new_options conf).block_size
  pub unlimited : (new_options conf).max_message_size ≡ 0

positive_or-positive :
    (x default : ℤ) → is_positive default ≡ true → is_positive (positive_or x default) ≡ true
unfolding positive_or
positive_or-positive x default h = elim (Bool-cases (is_positive x)) [
  | inl e ↦ rw (e, positive_or) e
  | inr e ↦ rw (e, positive_or) h
]

size_of-positive : (x : ℤ) → is_positive x ≡ true → 0 < size_of x
unfolding is_positive size_of
size_of-positive (pos n) h = ground arith
size_of-positive (negsuc n) h = absurd (ground arith)

-- Whatever settings `NewServer` gets, none or with zero or negative values: the server's times, sizes
-- and its count of messages under way are positive, and so is the block size of the options of a
-- Send. There is no limit on the size of a message, also where the settings ask for one.
pub server_config-IsUsable :
    {N P R : Type 0} (conf : Option (Settings N P R)) → IsUsable (server_config conf)
unfolding server_config new_config is_positive new_options size_of
server_config-IsUsable none = record {
  expires = refl;
  watched = refl;
  blocks = refl;
  active = refl;
  starts = refl;
  options_blocks = omega arith;
  unlimited = refl;
}
server_config-IsUsable (some conf) =
    let blocks : is_positive (positive_or conf.block_default_size (pos 1024)) ≡ true =
      positive_or-positive conf.block_default_size (pos 1024) refl in
    record {
      expires = positive_or-positive conf.deduplicate_expiration (pos (600 * second)) refl;
      watched = positive_or-positive conf.deduplicate_interval (pos (20 * second)) refl;
      blocks = blocks;
      active = positive_or-positive conf.block_inactivity_timeout (pos (120 * second)) refl;
      starts = positive_or-positive conf.n_start (pos 1) refl;
      options_blocks = size_of-positive (positive_or conf.block_default_size (pos 1024)) blocks;
      unlimited = refl;
    }
