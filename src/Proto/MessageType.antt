-- ===== src/Proto/MessageType.antt =====
-- sdk/js/src/generated/proto.js: `ibridger.MessageType`.
use ibridger.Common.{ℕ}

abbrev pub request : ℕ
request = 0

abbrev pub response : ℕ
response = 1

abbrev pub event : ℕ
event = 2

abbrev pub error : ℕ
error = 3
