-- ===== src/Log.antt =====
-- log.go: which lines the log function gets at a level, and the text that the default one makes of a
-- line. The time and the arguments of the format are left out; `error_text` is the Error method.
use coap.Base.{
  ℕ, ◌*◌, ◌/◌, ◌%◌, ◌≡◌, refl, ltb, if◌then◌else◌, [], ◌∷◌, ◌++◌, length, Option, none, some, Error,
  bytes_eq, arith,
}
use coap.Base.Int.{pos}
use coap.Options.{Bytes}
use coap.Message.{Message}
use coap.Names.{codes, hex_digit, decimal}

-- What the log function is called with.
pub record Line : Type 0 where
  pub level : Bytes
  pub msg : Option Message
  pub error : Option Error
  pub text : Bytes

abbrev pub log_level_error : Bytes
log_level_error = codes "error"

abbrev pub log_level_warn : Bytes
log_level_warn = codes "warn"

abbrev pub log_level_info : Bytes
log_level_info = codes "info"

abbrev pub log_level_debug : Bytes
log_level_debug = codes "debug"

-- `SetLogLevel`: an unknown level turns the log off.
unfoldable pub set_log_level : Bytes → ℕ
set_log_level level =
    if bytes_eq level log_level_error
    then 1
    else if bytes_eq level log_level_warn
    then 2
    else if bytes_eq level log_level_info
    then 3
    else if bytes_eq level log_level_debug
    then 4
    else 0

-- The variables of the package: the function that lines go to, and the level.
pub record Logger (F : Type 0) : Type 0 where
  pub log_func : F
  pub log_level : ℕ

-- `logFunc` and `logLevel` at the start: the default function, and no level.
unfoldable pub new_logger : {F : Type 0} → F → Logger F
new_logger default_func = record { log_func = default_func; log_level = 0 }

unfoldable pub set_log_func : {F : Type 0} → F → Logger F → Logger F
set_log_func f l = record l { log_func = f }

unfoldable pub log_error : ℕ → Option Message → Option Error → Bytes → Option Line
log_error log_level msg e text =
    if ltb log_level 1
    then none
    else some (record { level = log_level_error; msg = msg; error = e; text = text })

unfoldable pub log_warn : ℕ → Option Message → Option Error → Bytes → Option Line
log_warn log_level msg e text =
    if ltb log_level 2
    then none
    else some (record { level = log_level_warn; msg = msg; error = e; text = text })

unfoldable pub log_debug : ℕ → Option Message → Option Error → Bytes → Option Line
log_debug log_level msg e text =
    if ltb log_level 4
    then none
    else some (record { level = log_level_debug; msg = msg; error = e; text = text })

-- `hex.EncodeToString`
unfoldable pub hex_text : Bytes → Bytes
unfolding hex_digit
hex_text [] = []
hex_text (b ∷ s) = hex_digit (b / 16) ∷ hex_digit (b % 16) ∷ hex_text s

-- Where a message is from.
unfoldable pub location : Option Message → Bytes
unfolding hex_text
location none = []
location (some m) =
    if ltb (length m.meta.remote_addr) 1
    then []
    else m.meta.remote_addr
      ++ codes "]["
      ++ decimal (pos m.message_id)
      ++ codes "]["
      ++ hex_text m.token

module _ (error_text : Error → Bytes) where
  unfoldable pub error_suffix : Option Error → Bytes
  error_suffix none = []
  error_suffix (some e) = codes "(err: " ++ error_text e ++ codes ")"

  -- What `defaultLogFunc` prints.
  unfoldable pub default_log_func : Line → Bytes
  unfolding location error_suffix
  default_log_func l =
      codes " ["
      ++ l.level
      ++ codes "] ["
      ++ location l.msg
      ++ codes "] "
      ++ l.text
      ++ error_suffix l.error

-- A token is written with two digits for each byte.
length-hex_text : (s : Bytes) → length (hex_text s) ≡ 2 * length s
unfolding hex_text
length-hex_text [] = refl
length-hex_text (b ∷ s) = rw (length-hex_text s) (omega arith)
