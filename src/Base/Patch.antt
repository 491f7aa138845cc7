-- ===== src/Base/Patch.antt =====
-- Keys of a partial update.
use mathlib.Core.Option.{Option, none, some}

-- A key of `model_dump(exclude_unset=True)`: absent, or present with a value that may be null.
pub data Update (A : Type 0) : Type 0 where
  unset : Update A
  given : Option A → Update A

-- `updates.get(key, default)`, and also `setattr` of every key that is present.
abbrev pub get_or : {A : Type 0} → Update A → Option A → Option A
get_or unset default = default
get_or (given v) default = v

-- `if value is not None: setattr(row, key, value)`, for a column that is never null and for one that may be.
abbrev pub set_to : {A : Type 0} → Update A → A → A
set_to unset old = old
set_to (given none) old = old
set_to (given (some v)) old = v

abbrev pub keep_old : {A : Type 0} → Update A → Option A → Option A
keep_old unset old = old
keep_old (given none) old = old
keep_old (given (some v)) old = some v
