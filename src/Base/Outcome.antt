-- ===== src/Base/Outcome.antt =====
-- What a Go call comes to: a value, an error value, a run-time panic, or, for a loop on fuel, no
-- answer within the fuel.
use Prim.Native.Nat.{ℕ}
use coap.Base.Tests.{if◌then◌else◌}
use mathlib.Core.Path.{◌≡◌, refl}
use mathlib.Core.Bool.{Bool, true, false}
use mathlib.Core.Logic.{◌⊎◌, inl, inr}
use mathlib.Core.Option.{Option, none, some}

-- The error values of the package: the variables of errors.go and the texts of `errors.New`.
pub data Error : Type 0 where
  -- message_parse.go
  short_packet invalid_version invalid_token_len truncated unexpected_ext_marker : Error
  -- blockwise.go
  invalid_interface_type invalid_block_length : Error
  block_not_found block_number_mismatch block_overflow : Error
  -- errors.go
  bad_request not_found unauthorized method_not_allowed : Error
  encoding_not_acceptable internal_server_error timeout : Error
  other_error : ℕ → Error
  -- send.go
  expected_continue expected_block1 expected_observation expected_block2 : Error
  no_valid_listener : Error
  -- listen_udp.go and listen_proxy.go
  port_shutdown callback_not_found : Error

pub data Result {ℓ} (A : Type ℓ) : Type ℓ where
  panic : Result A
  stuck : Result A
  err : Error → Result A
  ok : A → Result A

-- Go on if the test holds, and fail with the error if not.
abbrev pub guard : Bool → Error → Result (Unit {0})
guard false e = err e
guard true e = ok tt

infixl 5 ◌>>◌ ◌>>=◌
abbrev pub ◌>>=◌ {κ ℓ} : {A : Type κ} {B : Type ℓ} → Result A → (A → Result B) → Result B
panic >>= next = panic
stuck >>= next = stuck
err e >>= next = err e
ok a >>= next = next a

abbrev pub ◌>>◌ {κ} : {A : Type κ} → Result (Unit {0}) → Result A → Result A
test >> rest = test >>= λ _. rest

-- A step that panics in place of a value.
abbrev pub or_panic {ℓ} : {A : Type ℓ} → Option A → Result A
or_panic none = panic
or_panic (some a) = ok a

-- The call returns a value, and the value satisfies `P`.
abbrev pub Returns {ℓ} : {A : Type ℓ} → (A → Type 0) → Result A → Type 0
Returns P (ok a) = P a
Returns P _ = ⊥

-- The call ends by itself without a panic, and a value that it returns satisfies `P`.
abbrev pub IsSafe {ℓ} : {A : Type ℓ} → (A → Type 0) → Result A → Type 0
IsSafe P (ok a) = P a
IsSafe P (err e) = Unit {0}
IsSafe P _ = ⊥

-- The rules of `IsSafe` for a chain of calls.
pub >>=-IsSafe {ℓ κ} :
    {A : Type ℓ} {B : Type κ} (P : A → Type 0) (Q : B → Type 0) (m : Result A) (f : A → Result B)
    → IsSafe P m
    → ((a : A) → P a → IsSafe Q (f a))
    → IsSafe Q (m >>= f)
>>=-IsSafe P Q (ok a) f h k = k a h
>>=-IsSafe P Q (err e) f h k = tt
>>=-IsSafe P Q panic f h k = absurd h
>>=-IsSafe P Q stuck f h k = absurd h

-- A safe call gives a value that satisfies `P`, or an error.
pub IsSafe-cases {ℓ} :
    {A : Type ℓ} (P : A → Type 0) (m : Result A)
    → IsSafe P m
    → ((a : A) × (m ≡ ok a) × P a) ⊎ ((e : Error) × (m ≡ err e))
IsSafe-cases P (ok a) h = inl (a, refl, h)
IsSafe-cases P (err e) h = inr (e, refl)
IsSafe-cases P panic h = absurd h
IsSafe-cases P stuck h = absurd h

pub Returns-IsSafe {ℓ} : {A : Type ℓ} (P : A → Type 0) (m : Result A) → Returns P m → IsSafe P m
Returns-IsSafe P (ok a) h = h
Returns-IsSafe P (err e) h = absurd h
Returns-IsSafe P panic h = absurd h
Returns-IsSafe P stuck h = absurd h

pub guard-IsSafe {ℓ} :
    {B : Type ℓ} (Q : B → Type 0) (b : Bool) (e : Error) (k : Result B)
    → (b ≡ true → IsSafe Q k)
    → IsSafe Q (guard b e >> k)
guard-IsSafe Q true e k h = h refl
guard-IsSafe Q false e k h = tt

-- If the call returns a value, the value satisfies `P`.
abbrev pub OnSuccess {ℓ} : {A : Type ℓ} → (A → Type 0) → Result A → Type 0
OnSuccess P (ok a) = P a
OnSuccess P _ = Unit {0}

pub >>=-OnSuccess {ℓ κ} :
    {A : Type ℓ} {B : Type κ} (P : A → Type 0) (Q : B → Type 0) (m : Result A) (f : A → Result B)
    → OnSuccess P m
    → ((a : A) → P a → OnSuccess Q (f a))
    → OnSuccess Q (m >>= f)
>>=-OnSuccess P Q (ok a) f h k = k a h
>>=-OnSuccess P Q (err e) f h k = tt
>>=-OnSuccess P Q panic f h k = tt
>>=-OnSuccess P Q stuck f h k = tt

pub OnSuccess-any {ℓ} : {A : Type ℓ} (m : Result A) → OnSuccess (λ _. Unit {0}) m
OnSuccess-any (ok a) = tt
OnSuccess-any (err e) = tt
OnSuccess-any panic = tt
OnSuccess-any stuck = tt

-- The call does not panic, and a value that it returns satisfies `P`. It may go on for ever.
abbrev pub NoPanic {ℓ} : {A : Type ℓ} → (A → Type 0) → Result A → Type 0
NoPanic P (ok a) = P a
NoPanic P (err e) = Unit {0}
NoPanic P stuck = Unit {0}
NoPanic P panic = ⊥

pub IsSafe-NoPanic {ℓ} : {A : Type ℓ} (P : A → Type 0) (m : Result A) → IsSafe P m → NoPanic P m
IsSafe-NoPanic P (ok a) h = h
IsSafe-NoPanic P (err e) h = tt
IsSafe-NoPanic P stuck h = tt
IsSafe-NoPanic P panic h = h

pub >>=-NoPanic {ℓ κ} :
    {A : Type ℓ} {B : Type κ} (P : A → Type 0) (Q : B → Type 0) (m : Result A) (f : A → Result B)
    → NoPanic P m
    → ((a : A) → P a → NoPanic Q (f a))
    → NoPanic Q (m >>= f)
>>=-NoPanic P Q (ok a) f h k = k a h
>>=-NoPanic P Q (err e) f h k = tt
>>=-NoPanic P Q panic f h k = absurd h
>>=-NoPanic P Q stuck f h k = tt

pub if-NoPanic {ℓ} :
    {A : Type ℓ} (P : A → Type 0) (b : Bool) (x y : Result A)
    → NoPanic P x
    → NoPanic P y
    → NoPanic P (if b then x else y)
if-NoPanic P true x y h k = h
if-NoPanic P false x y h k = k
