-- ===== src/Proto/StatusCode.antt =====
-- sdk/js/src/generated/proto.js: `ibridger.StatusCode`.
use ibridger.Common.{ℕ}

abbrev pub ok : ℕ
ok = 0

abbrev pub unknown_error : ℕ
unknown_error = 1

abbrev pub not_found : ℕ
not_found = 2

abbrev pub invalid_argument : ℕ
invalid_argument = 3

abbrev pub internal : ℕ
internal = 4

abbrev pub timeout : ℕ
timeout = 5
