-- ===== src/Enrollments/Progress.antt =====
-- The rules of `EnrollmentService.update_lesson_progress` (app/modules/enrollments/service.py), as a
-- function from the row and the request to the fields that are written.
pub mod Valid
use lms_backend.Base.{
  ℕ, ◌*◌, Text, codes, Bool, true, false, Option, none, some, [], ◌∷◌, Result, ok, err, value_error,
  type_error, decimal_error, ltb, leb, ◌≤◌, ◌||◌, ◌&&◌, not, if◌then◌else◌,
}
use lms_backend.Base.Fallible.{◌>>=◌, ◌>>◌}
use Prim.Native.Nat.{◌^◌}
use lms_backend.Base.Eq.{list_eq}
use lms_backend.Base.Dict.{Dict, insert}
use lms_backend.Base.Patch.{Update, unset, given, get_or}
use lms_backend.Db.{LessonProgress, ProgressStatus}
use lms_backend.Enrollments.Repository.{is_completed}

-- A `Decimal` that is not negative, `digits / 10 ** places`; `stored` is what the column `Numeric(5, 2)` keeps of
-- it, in hundredths, which the database decides.
pub record Percentage : Type 0 where
  pub digits : ℕ
  pub places : ℕ
  pub stored : ℕ

-- A percentage of two places, which the column keeps as it is.
abbrev pub hundredths : ℕ → Percentage
hundredths n = record { digits = n; places = 2; stored = n }

-- `percentage >= Decimal("100")`
unfoldable pub is_full : Percentage → Bool
is_full p = leb (100 * 10 ^ p.places) p.digits

-- schemas.py
pub record LessonProgressUpdate : Type 0 where
  pub status : Update ProgressStatus
  pub time_spent_seconds : Update ℕ
  pub last_position_seconds : Update ℕ
  pub completion_percentage : Update Percentage
  pub notes : Update Text

-- The arguments of `upsert_lesson_progress`; `none` leaves the column alone.
pub record Fields : Type 0 where
  pub status : Option ProgressStatus
  pub started_at : Option ℕ
  pub completed_at : Option ℕ
  pub time_spent_seconds : Option ℕ
  pub last_position_seconds : Option ℕ
  pub completion_percentage : Percentage
  pub progress_metadata : Option (Dict Text Text)

-- What the code reads of the row, with its defaults where there is none.
pub record Before : Type 0 where
  pub current_status : ProgressStatus
  pub default_status : ProgressStatus
  pub started_at : Option ℕ
  pub completed_at : Option ℕ
  pub completion_percentage : Percentage
  pub time_spent_seconds : ℕ
  pub last_position_seconds : ℕ
  pub progress_metadata : Option (Dict Text Text)

pub before : Option LessonProgress → Before
before none = record {
  current_status = ProgressStatus.not_started;
  default_status = ProgressStatus.in_progress;
  started_at = none;
  completed_at = none;
  completion_percentage = hundredths 0;
  time_spent_seconds = 0;
  last_position_seconds = 0;
  progress_metadata = some [];
}
before (some p) = record {
  current_status = p.status;
  default_status = p.status;
  started_at = p.started_at;
  completed_at = p.completed_at;
  completion_percentage = hundredths p.completion_percentage;
  time_spent_seconds = p.time_spent_seconds;
  last_position_seconds = p.last_position_seconds;
  progress_metadata = p.progress_metadata;
}

-- `value > 0`, where comparing null raises `TypeError`.
abbrev pub positive : Option ℕ → Result Bool
positive none = err type_error
positive (some n) = ok (ltb 0 n)

-- Activity on a lesson that the request calls not started makes it in progress.
pub promote :
    Option ProgressStatus → Percentage → Option ℕ → Option ℕ → Result (Option ProgressStatus)
promote (some ProgressStatus.not_started) completion time position =
    if ltb 0 completion.digits then ok (some ProgressStatus.in_progress) else do
      t ← positive time
      p ← if t then ok true else positive position
      ok (some (if p then ProgressStatus.in_progress else ProgressStatus.not_started))
promote status completion time position = ok status

abbrev pub is_done : Option ProgressStatus → Bool
is_done (some s) = is_completed s
is_done none = false

-- `x or now`
abbrev pub or_now : Option ℕ → ℕ → Option ℕ
or_now (some t) now = some t
or_now none now = some now

-- A status that is not completed, with the percentage and the two times that go with it.
settle_open :
    Option ProgressStatus
    → Percentage
    → Before
    → ℕ
    → Option ProgressStatus × Percentage × Option ℕ × Option ℕ
settle_open (some ProgressStatus.not_started) completion b now =
    (some ProgressStatus.not_started, hundredths 0, none, none)
settle_open status completion b now = (status, completion, or_now b.started_at now, none)

-- The status with the percentage, `started_at` and `completed_at`.
pub settle :
    Option ProgressStatus
    → Percentage
    → Before
    → ℕ
    → Option ProgressStatus × Percentage × Option ℕ × Option ℕ
unfolding settle_open is_full
settle status completion b now =
    if is_done status || is_full completion
    then (
      some ProgressStatus.completed,
      hundredths 10000,
      or_now b.started_at now,
      or_now b.completed_at now,
    )
    else settle_open status completion b now

-- `{**(metadata or {}), "notes": notes}` where the notes are not empty.
pub with_notes : Option (Dict Text Text) → Update Text → Option (Dict Text Text)
with_notes metadata (given (some (c ∷ text))) =
    some (insert (codes "notes") (c ∷ text) (elim metadata [ none ↦ [] | some m ↦ m ]))
with_notes metadata _ = metadata

abbrev pub required : Option Percentage → Result Percentage
required none = err decimal_error
required (some n) = ok n

abbrev pub guard : Bool → Result (Unit {0})
guard true = err (value_error "Completed lesson progress cannot be downgraded")
guard false = ok tt

pub resolve : Option LessonProgress → LessonProgressUpdate → ℕ → Result Fields
unfolding before promote settle with_notes
resolve progress u now = do
  let b = before progress
  let status = get_or u.status (some b.default_status)
  completion ← required (get_or u.completion_percentage (some b.completion_percentage))
  let time = get_or u.time_spent_seconds (some b.time_spent_seconds)
  let position = get_or u.last_position_seconds (some b.last_position_seconds)
  guard (is_completed b.current_status && not (is_done status))
  status' ← promote status completion time position
  let (status'', completion', started, finished) = settle status' completion b now
  ok (record {
    status = status'';
    started_at = started;
    completed_at = finished;
    time_spent_seconds = time;
    last_position_seconds = position;
    completion_percentage = completion';
    progress_metadata = with_notes b.progress_metadata u.notes;
  })

abbrev pub set_if : {A : Type 0} → Option A → A → A
set_if none old = old
set_if (some v) old = v

abbrev pub set_some : {A : Type 0} → Option A → Option A → Option A
set_some none old = old
set_some (some v) old = some v

-- The loop of `upsert_lesson_progress`: a field that is null is skipped.
pub apply_fields : Fields → LessonProgress → LessonProgress
apply_fields f p = record p {
  status = set_if f.status p.status;
  started_at = set_some f.started_at p.started_at;
  completed_at = set_some f.completed_at p.completed_at;
  time_spent_seconds = set_if f.time_spent_seconds p.time_spent_seconds;
  last_position_seconds = set_if f.last_position_seconds p.last_position_seconds;
  completion_percentage = f.completion_percentage.stored;
  progress_metadata = set_some f.progress_metadata p.progress_metadata;
}

-- The row that `upsert_lesson_progress` adds, with the defaults of the table.
pub new_progress : ℕ → ℕ → ℕ → LessonProgress
new_progress id enrollment_id lesson_id = record {
  id = id;
  enrollment_id = enrollment_id;
  lesson_id = lesson_id;
  status = ProgressStatus.not_started;
  started_at = none;
  completed_at = none;
  time_spent_seconds = 0;
  last_position_seconds = 0;
  completion_percentage = 0;
  attempts_count = 0;
  progress_metadata = none;
}

-- The row after the update of an existing or of a new row.
unfoldable pub updated_row :
    ℕ → ℕ → ℕ → Option LessonProgress → LessonProgressUpdate → ℕ → Result LessonProgress
unfolding resolve apply_fields new_progress
updated_row id enrollment_id lesson_id progress u now = do
  f ← resolve progress u now
  ok (
      apply_fields f
        (elim progress [ none ↦ new_progress id enrollment_id lesson_id | some p ↦ p ]))
