-- ===== src/Quizzes/Attempts/Submit/Graded.antt =====
-- What a submission writes, and that an attempt is graded once.
use lms_backend.Base.{ℕ, ◌≡◌, ◌≤◌, ◌↔◌, refl, true, Option, some, List, [], ◌∷◌, arith, leb_iff}
use lms_backend.Base.Eq.{nat_eq}
use lms_backend.Base.Dict.{Dict, lookup}
use lms_backend.Db.{Quiz, QuizQuestion, QuizAttempt, AttemptStatus, GradedAnswer}
use lms_backend.Quizzes.Grading.{
  AnswerSubmission, grade_question, earned, calculate_total_points, total_score,
  calculate_percentage,
}
use lms_backend.Quizzes.Grading.Score.{earned-grade_question, calculate_percentage-le}
use lms_backend.Quizzes.Attempts.Submit.{grade_all, graded}

earned-le :
    (q : QuizQuestion) (a : Option AnswerSubmission) → earned (grade_question q a) ≤ q.points
earned-le q a = ground (arith, earned-grade_question q a)

total_score-le :
    (qs : List QuizQuestion) (m : Dict ℕ AnswerSubmission)
    → total_score (grade_all qs m) ≤ calculate_total_points qs
unfolding total_score grade_all calculate_total_points
total_score-le [] m = omega arith
total_score-le (q ∷ qs) m = omega (arith, earned-le q (lookup q.id m), total_score-le qs m)

-- A graded attempt: its score is the sum of what its answers earned and at most the points of the
-- quiz, its percentage at most 100, and it is passed exactly from the passing score on.
pub record IsGraded (quiz : Quiz) (a : QuizAttempt) : Type 0 where
  pub closed : a.status ≡ AttemptStatus.graded
  pub results : List GradedAnswer
  pub score : ℕ
  pub percentage : ℕ
  pub kept : a.answers ≡ some results
  pub scored : a.score ≡ some score
  pub rated : a.percentage ≡ some percentage
  pub summed : score ≡ total_score results
  pub at_most : score ≤ calculate_total_points quiz.questions
  pub in_range : percentage ≤ 10000
  pub passes : (a.is_passed ≡ some true) ↔ (quiz.passing_score ≤ percentage)

pub graded-IsGraded :
    (a : QuizAttempt) (quiz : Quiz) (m : Dict ℕ AnswerSubmission) (now : ℕ)
    → IsGraded quiz (graded a quiz m now)
unfolding graded
graded-IsGraded a quiz m now =
    let results = grade_all quiz.questions m in
    let most = calculate_total_points quiz.questions in
    let score = total_score results in
    let percentage = calculate_percentage score most in
    record {
      closed = refl;
      results = results;
      score = score;
      percentage = percentage;
      kept = refl;
      scored = refl;
      rated = refl;
      summed = refl;
      at_most = total_score-le quiz.questions m;
      in_range = calculate_percentage-le score most (total_score-le quiz.questions m);
      passes = (
        λ h. (leb_iff quiz.passing_score percentage).0 (ground arith),
        λ h. rw ((leb_iff quiz.passing_score percentage).1 h) refl,
      );
    }
