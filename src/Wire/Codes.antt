-- ===== src/Wire/Codes.antt =====
-- message_parse.go: the codes of an extended option delta or length.
use coap.Base.{ℕ}

abbrev pub ext_opt_byte_code : ℕ
ext_opt_byte_code = 13

abbrev pub ext_opt_byte_addend : ℕ
ext_opt_byte_addend = 13

abbrev pub ext_opt_word_code : ℕ
ext_opt_word_code = 14

abbrev pub ext_opt_word_addend : ℕ
ext_opt_word_addend = 269

abbrev pub ext_opt_error : ℕ
ext_opt_error = 15
