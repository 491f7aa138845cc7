-- ===== src/Courses/Lessons/Rows.antt =====
-- What a write to the table of lessons does to their parents: a forest stays one.
use lms_backend.Base.{
  ℕ, ◌≡◌, ◌≢◌, ◌⊎◌, refl, sym, ap, ◌∙◌, true, false, none, some, List, ◌∷◌, [], ◌++◌, ok, arith,
  inl, inr, ◌==◌, ==_iff, Option-cases, Bool-cases, if◌then◌else◌,
}
use mathlib.Core.Path.{subst}
use lms_backend.Base.Sets.{mem}
use lms_backend.Db.{Lesson}
use lms_backend.Courses.Hierarchy.{with_id, validate_parent_lesson}
use lms_backend.Courses.Hierarchy.Ends.{ids}
use lms_backend.Courses.Hierarchy.Forest.{
  IsForest, parents, parent_in, rooted_pruned, rooted_as_root, rooted_checked, rooted_new,
  checked_known,
}
use lms_backend.Courses.Lessons.{
  LessonUpdate, put_lesson, without_lesson, updated_lesson, checked_parent,
}

parents-put_lesson :
    (l : Lesson) (lessons : List Lesson) (a : ℕ)
    → a ≢ l.id
    → parents (put_lesson l lessons) a ≡ parents lessons a
unfolding put_lesson
parents-put_lesson l [] a n = refl
parents-put_lesson l (m ∷ lessons) a n =
    ground (arith, parents-put_lesson l lessons a n, ==_iff l.id a, ==_iff m.id l.id, ==_iff m.id a)

own-put_lesson :
    (l : Lesson) (lessons : List Lesson) {old : Lesson}
    → with_id l.id lessons ≡ some old
    → parents (put_lesson l lessons) l.id ≡ l.parent_lesson_id
unfolding put_lesson
own-put_lesson l [] h = cc
own-put_lesson l (m ∷ lessons) {old = old} h =
    ground (arith, own-put_lesson l lessons {old = old}, ==_iff m.id l.id)

ids-put_lesson : (l : Lesson) (lessons : List Lesson) → ids (put_lesson l lessons) ≡ ids lessons
unfolding put_lesson
ids-put_lesson l [] = refl
ids-put_lesson l (m ∷ lessons) = ground (arith, ids-put_lesson l lessons, ==_iff m.id l.id)

parents-append :
    (l : Lesson) (lessons : List Lesson) (a : ℕ)
    → a ≢ l.id
    → parents (lessons ++ l ∷ []) a ≡ parents lessons a
parents-append l [] a n = ground (arith, ==_iff l.id a)
parents-append l (m ∷ lessons) a n = ground (arith, parents-append l lessons a n)

own-append :
    (l : Lesson) (lessons : List Lesson)
    → mem l.id (ids lessons) ≡ false
    → parents (lessons ++ l ∷ []) l.id ≡ l.parent_lesson_id
own-append l [] n = ground arith
own-append l (m ∷ lessons) n = ground (arith, own-append l lessons)

mem-append :
    (a : ℕ) (l : Lesson) (lessons : List Lesson)
    → mem a (ids (lessons ++ l ∷ [])) ≡ (if mem a (ids lessons) then true else l.id == a)
mem-append a l [] = ground arith
mem-append a l (m ∷ lessons) = ground (arith, mem-append a l lessons)

-- After a deletion, a parent that is left is another lesson's, and was there before.
left-without :
    (id : ℕ) (lessons : List Lesson) (a p : ℕ)
    → parents (without_lesson id lessons) a ≡ some p
    → (parents lessons a ≡ some p) × ((p == id) ≡ false) × ((a == id) ≡ false)
unfolding without_lesson
left-without id [] a p h = cc
left-without id (m ∷ lessons) a p h =
    ground (arith, left-without id lessons a p, ==_iff m.id id, ==_iff m.id a, ==_iff a id)

mem-without :
    (id : ℕ) (lessons : List Lesson) (a : ℕ)
    → (a == id) ≡ false
    → mem a (ids (without_lesson id lessons)) ≡ mem a (ids lessons)
unfolding without_lesson
mem-without id [] a n = refl
mem-without id (m ∷ lessons) a n =
    ground (arith, mem-without id lessons a, ==_iff m.id id, ==_iff m.id a, ==_iff a id)

pub without-IsForest :
    (id : ℕ) (lessons : List Lesson) → IsForest lessons → IsForest (without_lesson id lessons)
without-IsForest id lessons f = record {
  rooted = λ a. rooted_pruned pruned (f.rooted a).1;
  known = λ a p e.
      let (before, other, _) = left-without id lessons a p e in
      mem-without id lessons p other ∙ f.known a p before;
}
  where
    pruned :
        (a : ℕ)
        → (parents (without_lesson id lessons) a ≡ parents lessons a)
          ⊎ (parents (without_lesson id lessons) a ≡ none)
    pruned a = elim (Option-cases (parents (without_lesson id lessons) a)) [
      | inl n ↦ inr n
      | inr (p, e) ↦ inl (e ∙ sym (left-without id lessons a p e).0)
    ]

-- Parents stay in the table, if the one that changed is there.
known_after :
    (lessons changed_lessons : List Lesson) (changed : ℕ)
    → IsForest lessons
    → ((a : ℕ) → a ≢ changed → parents changed_lessons a ≡ parents lessons a)
    → ((p : ℕ) → mem p (ids lessons) ≡ true → mem p (ids changed_lessons) ≡ true)
    → ((p : ℕ) → parents changed_lessons changed ≡ some p → mem p (ids lessons) ≡ true)
    → (a p : ℕ) → parents changed_lessons a ≡ some p
    → mem p (ids changed_lessons) ≡ true
known_after lessons changed_lessons changed f c stay own a p h = elim (Bool-cases (a == changed)) [
  | inl e ↦
      stay p (own p (subst (λ x. parents changed_lessons x ≡ some p) ((==_iff a changed).0 e) h))
  | inr e ↦
      stay p (f.known a p (sym (c a (λ (q : a ≡ changed). ground (arith, ==_iff a changed))) ∙ h))
]

some_injective : {p q : ℕ} → some p ≡ some q → p ≡ q
some_injective h = ground arith

pub append-IsForest :
    (l : Lesson) (course_id : ℕ) (lessons : List Lesson)
    → IsForest lessons
    → mem l.id (ids lessons) ≡ false
    → validate_parent_lesson lessons course_id l.parent_lesson_id none ≡ ok tt
    → IsForest (lessons ++ l ∷ [])
append-IsForest l course_id lessons f fresh h = record {
  rooted = elim (Option-cases l.parent_lesson_id) [
    | inl n ↦
        rooted_as_root lessons after l.id f (parents-append l lessons)
          (own-append l lessons fresh ∙ n)
    | inr (p, e) ↦
        rooted_new lessons after l.id f (parents-append l lessons) p
          (own-append l lessons fresh ∙ e) (checked p e) fresh
  ];
  known =
      known_after lessons after l.id f (parents-append l lessons)
        (λ p m. ground (arith, mem-append p l lessons))
        (λ p e. checked p (sym (own-append l lessons fresh) ∙ e));
}
  where
    after : List Lesson
    after = lessons ++ l ∷ []

    checked : (p : ℕ) → l.parent_lesson_id ≡ some p → mem p (ids lessons) ≡ true
    checked p e =
        checked_known lessons course_id p none
          (subst (λ o. validate_parent_lesson lessons course_id o none ≡ ok tt) e h)

-- What holds of the parent of the row that an update writes over `old`.
pub IsChecked : ℕ → Lesson → Lesson → List Lesson → Type 0
IsChecked course_id l old lessons =
    (l.parent_lesson_id ≡ old.parent_lesson_id)
    ⊎ (validate_parent_lesson lessons course_id l.parent_lesson_id (some l.id) ≡ ok tt)

module _ (l old : Lesson) (course_id : ℕ) (lessons : List Lesson) (f : IsForest lessons)
    (found : with_id l.id lessons ≡ some old) where
  abbrev put : List Lesson
  put = put_lesson l lessons

  own : parents put l.id ≡ l.parent_lesson_id
  own = own-put_lesson l lessons found

  kept : (p : ℕ) → mem p (ids lessons) ≡ true → mem p (ids put) ≡ true
  kept p m = rw (ids-put_lesson l lessons) m

  put_known :
      ((p : ℕ) → l.parent_lesson_id ≡ some p → mem p (ids lessons) ≡ true)
      → (a p : ℕ) → parents put a ≡ some p
      → mem p (ids put) ≡ true
  put_known k =
      known_after lessons put l.id f (parents-put_lesson l lessons) kept (λ p e. k p (sym own ∙ e))

  put_same : l.parent_lesson_id ≡ old.parent_lesson_id → IsForest put
  put_same same = record {
    rooted = λ a. rooted_pruned (λ b. inl (all_same b)) (f.rooted a).1;
    known = put_known (λ p e. f.known l.id p (before ∙ sym same ∙ e));
  }
    where
      before : parents lessons l.id ≡ old.parent_lesson_id
      before = ap parent_in found

      all_same : (b : ℕ) → parents put b ≡ parents lessons b
      all_same b = elim (Bool-cases (b == l.id)) [
        | inl e ↦
            subst (λ x. parents put x ≡ parents lessons x) (sym ((==_iff b l.id).0 e))
              (own ∙ same ∙ sym before)
        | inr e ↦ parents-put_lesson l lessons b (λ (q : b ≡ l.id). ground (arith, ==_iff b l.id))
      ]

  put_checked :
      validate_parent_lesson lessons course_id l.parent_lesson_id (some l.id) ≡ ok tt → IsForest put
  put_checked h = record {
    rooted = elim (Option-cases l.parent_lesson_id) [
      | inl n ↦ rooted_as_root lessons put l.id f (parents-put_lesson l lessons) (own ∙ n)
      | inr (p, e) ↦
          rooted_checked lessons put l.id f (parents-put_lesson l lessons) course_id p (own ∙ e)
            (at p e)
    ];
    known = put_known (λ p e. checked_known lessons course_id p (some l.id) (at p e));
  }
    where
      at :
          (p : ℕ)
          → l.parent_lesson_id ≡ some p
          → validate_parent_lesson lessons course_id (some p) (some l.id) ≡ ok tt
      at p e = subst (λ o. validate_parent_lesson lessons course_id o (some l.id) ≡ ok tt) e h

  pub put-IsForest : IsChecked course_id l old lessons → IsForest put
  unfolding IsChecked
  put-IsForest (inl same) = put_same same
  put-IsForest (inr h) = put_checked h

pub IsChecked-update :
    (u : LessonUpdate) (l : Lesson) (course_id : ℕ) (lessons : List Lesson)
    → checked_parent lessons l course_id u.parent_lesson_id ≡ ok tt
    → IsChecked course_id (updated_lesson u l) l lessons
unfolding updated_lesson IsChecked
IsChecked-update u l course_id lessons h = ground arith
