-- ===== src/Enrollments/Progress/Valid.antt =====
-- Which progress rows are well formed, and that every update keeps them so.
use lms_backend.Base.{
  false, inl, inr, ◌⊎◌, refl, Result-cases, ℕ, ◌≡◌, ◌≢◌, ◌<◌, Option, none, some, ok, arith,
}
use lms_backend.Db.{LessonProgress, ProgressStatus}
use lms_backend.Base.Patch.{Update, unset, given}
use lms_backend.Enrollments.Progress.{
  LessonProgressUpdate, Percentage, hundredths, is_full, updated_row,
}

patch-cases :
    {A : Type 0} (u : Update A)
    → (u ≡ unset) ⊎ ((u ≡ given none) ⊎ ((a : A) × (u ≡ given (some a))))
patch-cases unset = inl refl
patch-cases (given none) = inr (inl refl)
patch-cases (given (some a)) = inr (inr (a, refl))

-- A completed lesson is at 100 percent and has both times; one that is not completed is below 100
-- percent and has no time of completion; one that is not started is at 0 with no time spent.
pub record IsValid (p : LessonProgress) : Type 0 where
  pub full : p.status ≡ ProgressStatus.completed → p.completion_percentage ≡ 10000
  pub finished : p.status ≡ ProgressStatus.completed → p.completed_at ≢ none
  pub started : p.status ≢ ProgressStatus.not_started → p.started_at ≢ none
  pub below : p.status ≢ ProgressStatus.completed → p.completion_percentage < 10000
  pub unfinished : p.status ≢ ProgressStatus.completed → p.completed_at ≡ none
  pub untouched : p.status ≡ ProgressStatus.not_started → p.completion_percentage ≡ 0

-- A percentage in the request that is below 100 is stored below 100: the column does not round it up to 100.
abbrev pub IsStoredBelow : LessonProgressUpdate → Type 0
IsStoredBelow u =
    (c : Percentage)
    → u.completion_percentage ≡ given (some c)
    → is_full c ≡ false
    → c.stored < 10000

below_full : (n : ℕ) → is_full (hundredths n) ≡ false → n < 10000
unfolding is_full
below_full n h = ground arith

IsValid-new :
    (id enrollment_id lesson_id now : ℕ) (u : LessonProgressUpdate) {p : LessonProgress}
    → u.status ≢ given none
    → IsStoredBelow u
    → updated_row id enrollment_id lesson_id none u now ≡ ok p
    → IsValid p
unfolding updated_row
IsValid-new id eid lid now u s b h = elim (patch-cases u.completion_percentage) [
  | inl n ↦ ground arith
  | inr (inl n) ↦ ground arith
  | inr (inr (c, e)) ↦ ground (arith, b c e)
]

IsValid-old :
    (id enrollment_id lesson_id now : ℕ) (u : LessonProgressUpdate) (old : LessonProgress)
    {p : LessonProgress}
    → u.status ≢ given none
    → IsStoredBelow u
    → IsValid old
    → updated_row id enrollment_id lesson_id (some old) u now ≡ ok p
    → IsValid p
unfolding updated_row
IsValid-old id eid lid now u old s b v h = elim (patch-cases u.completion_percentage) [
  | inl n ↦ ground (arith, below_full old.completion_percentage)
  | inr (inl n) ↦ ground arith
  | inr (inr (c, e)) ↦ ground (arith, b c e)
]

-- A well-formed row that is completed stays completed, at the same times, whatever the accepted
-- request.
pub completed_stays :
    (id enrollment_id lesson_id now : ℕ) (u : LessonProgressUpdate) (old : LessonProgress)
    {p : LessonProgress}
    → IsValid old
    → old.status ≡ ProgressStatus.completed
    → updated_row id enrollment_id lesson_id (some old) u now ≡ ok p
    → (p.status ≡ ProgressStatus.completed)
      × (p.completed_at ≡ old.completed_at)
      × (p.started_at ≡ old.started_at)
      × (p.completion_percentage ≡ 10000)
unfolding updated_row
completed_stays id eid lid now u old v c h = ground arith

-- There is no row, or it is well formed.
abbrev pub IsValidRow : Option LessonProgress → Type 0
IsValidRow none = Unit
IsValidRow (some p) = IsValid p

-- Every accepted request whose status is not an explicit null, and whose percentage is not rounded up to 100, makes a well-formed row from a
-- well-formed row or from none.
pub updated_row-IsValid :
    (id enrollment_id lesson_id now : ℕ) (u : LessonProgressUpdate) (old : Option LessonProgress)
    {p : LessonProgress}
    → u.status ≢ given none
    → IsStoredBelow u
    → IsValidRow old
    → updated_row id enrollment_id lesson_id old u now ≡ ok p
    → IsValid p
updated_row-IsValid id eid lid now u none s b v h = IsValid-new id eid lid now u s b h
updated_row-IsValid id eid lid now u (some old) s b v h = IsValid-old id eid lid now u old s b v h

abbrev pub status_of : Option LessonProgress → ProgressStatus
status_of none = ProgressStatus.not_started
status_of (some p) = p.status

-- An explicit null as the status, with a percentage below 100 that is not stored as 0, is accepted for a
-- well-formed lesson that is not started or has no row, and leaves a row that still counts as not
-- started with that percentage, which is not well formed.
pub null_status_breaks :
    (id enrollment_id lesson_id now : ℕ) (c : Percentage) (u : LessonProgressUpdate)
    (old : Option LessonProgress)
    → IsValidRow old
    → status_of old ≡ ProgressStatus.not_started
    → u.status ≡ given none
    → u.completion_percentage ≡ given (some c)
    → is_full c ≡ false
    → 0 < c.stored
    → (p : LessonProgress) × (updated_row id enrollment_id lesson_id old u now ≡ ok p)
      × (p.status ≡ ProgressStatus.not_started)
      × (p.completion_percentage ≡ c.stored)
      × ¬ IsValid p
unfolding updated_row
null_status_breaks id eid lid now c u none v s n e below pos =
    elim (Result-cases (updated_row id eid lid none u now)) [
      | inr (x, h) ↦ absurd (ground arith)
      | inl (p, h) ↦ (p, h, ground arith, ground arith, λ w. ground (arith, w.untouched))
    ]
null_status_breaks id eid lid now c u (some r) v s n e below pos =
    elim (Result-cases (updated_row id eid lid (some r) u now)) [
      | inr (x, h) ↦ absurd (ground arith)
      | inl (p, h) ↦ (p, h, ground arith, ground arith, λ w. ground (arith, w.untouched))
    ]

-- A percentage below 100 that the column rounds up to 100, in a first request without a status, leaves a row that is
-- in progress at 100 percent, against `below`.
pub rounded_up_breaks :
    (id enrollment_id lesson_id now : ℕ) (c : Percentage) (u : LessonProgressUpdate)
    → u.status ≡ unset
    → u.completion_percentage ≡ given (some c)
    → is_full c ≡ false
    → c.stored ≡ 10000
    → (p : LessonProgress) × (updated_row id enrollment_id lesson_id none u now ≡ ok p)
      × (p.status ≡ ProgressStatus.in_progress)
      × (p.completion_percentage ≡ 10000)
unfolding updated_row
rounded_up_breaks id eid lid now c u n e below up =
    elim (Result-cases (updated_row id eid lid none u now)) [
      | inr (x, h) ↦ absurd (ground arith)
      | inl (p, h) ↦ (p, h, ground arith, ground arith)
    ]

-- A well-formed lesson in progress that a request sets back to not started keeps the time at which
-- it was started: the upsert skips the null that should clear it.
pub reset_keeps_started_at :
    (id enrollment_id lesson_id now t : ℕ) (u : LessonProgressUpdate) (old : LessonProgress)
    {p : LessonProgress}
    → IsValid old
    → old.status ≡ ProgressStatus.in_progress
    → old.started_at ≡ some t
    → updated_row id enrollment_id lesson_id (some old) u now ≡ ok p
    → p.status ≡ ProgressStatus.not_started
    → p.started_at ≡ some t
unfolding updated_row
reset_keeps_started_at id eid lid now t u old v s a h n = ground arith
