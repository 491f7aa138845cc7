-- ===== src/Core/Cache/Tests.antt =====
-- A cache with one entry, and the theorems on caches at this data.
use lms_backend.Base.{◌≡◌, refl, codes, true, some, [], ◌∷◌, arith}
use lms_backend.Base.Decimal.{str, int, int-str}
use lms_backend.Base.Dict.{lookup}
use lms_backend.Core.Cache.{AppCache, new_cache, set_json, get_json}
use lms_backend.Core.Cache.Size.{IsCache, Call, run, run_all, run_all-IsCache}
use lms_backend.Core.Cache.Reads.{reads, Agree}
use lms_backend.Core.Cache.Refines.{promise, run-Agree, get_json-set_json}

abbrev cache : AppCache
cache = record {
  enabled = true;
  key_prefix = codes "lms";
  default_ttl_seconds = 60;
  memory = (codes "lms:visits", (160, codes "4")) ∷ [];
  memory_cleanup_counter = 0;
}

cache-IsCache : IsCache cache
unfolding lookup
cache-IsCache = record { distinct = (refl, tt); bounded = omega arith }

run_all-IsCache_example : IsCache (
    run_all
      ((Call.increase (codes "visits") 1, 100) ∷ (Call.delete_prefix (codes "v"), 101) ∷ [])
      (new_cache true (codes "lms") 60))
run_all-IsCache_example =
    run_all-IsCache true (codes "lms") 60
      ((Call.increase (codes "visits") 1, 100) ∷ (Call.delete_prefix (codes "v"), 101) ∷ [])

run-Agree_example :
    Agree 120
      (reads (run (Call.increase (codes "visits") 1) 120 cache))
      (promise cache (Call.increase (codes "visits") 1) 120 (reads cache))
run-Agree_example =
    run-Agree cache (Call.increase (codes "visits") 1) 120 (reads cache) refl cache-IsCache
      (omega arith) (λ k t le. refl)

get_json-set_json_example :
    (get_json int (codes "limit") 130 (set_json str (codes "limit") 25 (some 30) 120 cache)).0
    ≡ some 25
get_json-set_json_example =
    get_json-set_json str int int-str cache (codes "limit") 25 (some 30) 120 130 refl cache-IsCache
      (omega arith) (omega arith)
