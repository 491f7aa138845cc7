-- ===== src/Core/Lockout/Tests.antt =====
-- A lockout after two failures, and an empty cache.
use lms_backend.Base.{ℕ, ◌<◌, refl, codes, true, [], arith}
use lms_backend.Core.Cache.{AppCache}
use lms_backend.Core.Cache.Chains.{HasRoom}
use lms_backend.Core.Lockout.{Settings}

abbrev pub settings : Settings
settings = record { lockout_duration = 900; max_failed_login_attempts = 2 }

abbrev pub empty : AppCache
empty = record {
  enabled = true;
  key_prefix = codes "lms";
  default_ttl_seconds = 60;
  memory = [];
  memory_cleanup_counter = 0;
}

pub roomy : (n : ℕ) → n < 10000 → HasRoom n empty
roomy n lt = record {
  on = refl;
  cache = record { distinct = tt; bounded = omega arith };
  room = omega arith;
}
