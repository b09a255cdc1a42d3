-- ===== src/Proto/WireConstant.antt =====
-- sdk/js/src/generated/proto.js: `ibridger.WireConstant`.
use ibridger.Common.{ℕ}

abbrev pub max_frame_size : ℕ
max_frame_size = 16777216

abbrev pub default_timeout_ms : ℕ
default_timeout_ms = 30000
