-- ===== src/Courses/Hierarchy/Forest.antt =====
-- The parents of the lessons form a forest, and a parent that passes the check keeps it one.
use mathlib.Core.Path.{subst}
use lms_backend.Base.{
  ℕ, zero, suc, ◌≡◌, ◌≢◌, ◌≤◌, refl, true, false, Option, none, some, List, [], ◌∷◌, ok, arith,
  ◌==◌, inl, inr, Bool-cases, Option-cases, ◌⊎◌, find_passes, ==_iff, sym, ap, ◌∙◌,
}
use lms_backend.Base.Sets.{mem}
use lms_backend.Db.{Lesson}
use lms_backend.Courses.Hierarchy.{with_id, round, climb, enough, validate_parent_lesson}
use lms_backend.Courses.Hierarchy.Ends.{ids, mem-ids}

-- A map of parents by identifier, and how far an identifier is below a root.
pub data Rooted (parent : ℕ → Option ℕ) : ℕ → ℕ → Type 0 where
  root : {a : ℕ} → parent a ≡ none → Rooted parent a 0
  below : {a p n : ℕ} → parent a ≡ some p → Rooted parent p n → Rooted parent a (suc n)

-- The way up from an identifier does not meet `banned`.
data Avoids (parent : ℕ → Option ℕ) (banned : ℕ) : ℕ → Type 0 where
  last : {a : ℕ} → a ≢ banned → parent a ≡ none → Avoids parent banned a
  more :
      {a p : ℕ} → a ≢ banned → parent a ≡ some p → Avoids parent banned p → Avoids parent banned a

depth_unique : {parent : ℕ → Option ℕ} {a m n : ℕ} → Rooted parent a m → Rooted parent a n → m ≡ n
depth_unique (Rooted.root e) (Rooted.root f) = refl
depth_unique (Rooted.root e) (Rooted.below f r) = absurd (ground (arith, e, f))
depth_unique (Rooted.below e r) (Rooted.root f) = absurd (ground (arith, e, f))
depth_unique {parent} (Rooted.below {p = p} {n = m} e r) (Rooted.below {p = q} {n = n} f t) =
    let same : p ≡ q = ground (arith, e, f) in
    ap suc (depth_unique r (subst (λ x. Rooted parent x n) (sym same) t))

-- A change of one parent, and nothing else.
abbrev pub IsChange : (ℕ → Option ℕ) → (ℕ → Option ℕ) → ℕ → Type 0
IsChange old new changed = (a : ℕ) → a ≢ changed → new a ≡ old a

rooted_avoiding :
    {old new : ℕ → Option ℕ} {changed a : ℕ}
    → IsChange old new changed
    → Avoids old changed a
    → (n : ℕ) × Rooted new a n
rooted_avoiding c (Avoids.last n e) = (0, Rooted.root (c _ n ∙ e))
rooted_avoiding c (Avoids.more n e r) =
    let (m, above) = rooted_avoiding c r in (suc m, Rooted.below (c _ n ∙ e) above)

apart : (a b : ℕ) → (a == b) ≡ false → a ≢ b
apart a b e same = ground (arith, ==_iff a b)

module _ {old new : ℕ → Option ℕ} {changed k : ℕ} (c : IsChange old new changed)
    (top : Rooted new changed k) where
  at_change : (a : ℕ) → (a == changed) ≡ true → (m : ℕ) × Rooted new a m
  at_change a e = (k, subst (λ x. Rooted new x k) (sym ((==_iff a changed).0 e)) top)

  -- If the changed identifier is rooted under its new parent, all identifiers stay rooted.
  rooted_after : {a n : ℕ} → Rooted old a n → (m : ℕ) × Rooted new a m
  rooted_after (Rooted.root {a = a} e) = elim (Bool-cases (a == changed)) [
    | inl q ↦ at_change a q
    | inr q ↦ (0, Rooted.root (c a (apart a changed q) ∙ e))
  ]
  rooted_after (Rooted.below {a = a} e r) = elim (Bool-cases (a == changed)) [
    | inl q ↦ at_change a q
    | inr q ↦
        let (m, above) = rooted_after r in (suc m, Rooted.below (c a (apart a changed q) ∙ e) above)
  ]

-- The parent of an identifier in the table; a lesson that is not there has none.
abbrev pub parent_in : Option Lesson → Option ℕ
parent_in none = none
parent_in (some l) = l.parent_lesson_id

abbrev pub parents : List Lesson → ℕ → Option ℕ
parents lessons id = parent_in (with_id id lessons)

-- All that was visited is at least as far below its root as the current lesson.
abbrev Deeper : List Lesson → ℕ → List ℕ → Type 0
Deeper lessons depth visited =
    (v : ℕ) → mem v visited ≡ true → (k : ℕ) × Rooted (parents lessons) v k × (depth ≤ k)

one_below :
    {parent : ℕ → Option ℕ} {a p d : ℕ}
    → parent a ≡ some p
    → Rooted parent a d
    → (n : ℕ) × (d ≡ suc n) × Rooted parent p n
one_below e (Rooted.root f) = absurd (ground (arith, e, f))
one_below {parent} {p = p} e (Rooted.below {p = q} {n = n} f r) =
    let same : q ≡ p = ground (arith, e, f) in (n, refl, subst (λ x. Rooted parent x n) same r)

Deeper-cons :
    (lessons : List Lesson) (n p : ℕ) (visited : List ℕ)
    → Rooted (parents lessons) p n
    → Deeper lessons (suc n) visited
    → Deeper lessons n (p ∷ visited)
Deeper-cons lessons n p visited r deep v m = elim (Bool-cases (p == v)) [
  | inl e ↦ (n, subst (λ x. Rooted (parents lessons) x n) ((==_iff p v).0 e) r, omega arith)
  | inr e ↦ let (k, seen, le) = deep v (ground arith) in (k, seen, omega arith)
]

-- A walk that ends without an error from a rooted lesson does not meet the current one.
climb-Avoids :
    (lessons : List Lesson) (current fuel : ℕ) (visited : List ℕ) (a : Lesson) (depth : ℕ)
    → with_id a.id lessons ≡ some a
    → a.id ≢ current
    → Rooted (parents lessons) a.id depth
    → Deeper lessons depth visited
    → climb lessons (some current) fuel visited a ≡ some (ok tt)
    → Avoids (parents lessons) current a.id
unfolding climb round
climb-Avoids lessons current zero visited a depth known n r deep h = cc
climb-Avoids lessons current (suc fuel) visited a depth known n r deep h =
    elim (Option-cases a.parent_lesson_id) [
      | inl e ↦ Avoids.last n (ground (arith, known))
      | inr (p, e) ↦
          let up : parents lessons a.id ≡ some p = ground (arith, known) in
          let (m, is_depth, under) = one_below up r in
          elim (Bool-cases (p == current)) [
            | inl q ↦ absurd (ground arith)
            | inr q ↦ elim (Bool-cases (mem p visited)) [
              | inl v ↦
                  let (k, seen, le) = deep p v in absurd (omega (arith, depth_unique seen under))
              | inr v ↦ elim (Option-cases (with_id p lessons)) [
                | inl missing ↦ Avoids.more n up (Avoids.last (apart p current q) (ground arith))
                | inr (next, found) ↦
                    let id : next.id ≡ p =
                      (==_iff next.id p).0 (find_passes (λ l. l.id == p) lessons found) in
                    let deep' =
                      Deeper-cons lessons m p visited under
                        (subst (λ d. Deeper lessons d visited) is_depth deep) in
                    Avoids.more n up (
                      subst (λ x. Avoids (parents lessons) current x) id
                        (climb-Avoids lessons current fuel (p ∷ visited) next m
                          (subst (λ x. with_id x lessons ≡ some next) (sym id) found)
                          (subst (λ x. x ≢ current) (sym id) (apart p current q))
                          (subst (λ x. Rooted (parents lessons) x m) (sym id) under) deep'
                          (ground arith)))
              ]
            ]
          ]
    ]

-- Taking parents away keeps identifiers rooted.
pub rooted_pruned :
    {old new : ℕ → Option ℕ}
    → ((a : ℕ) → (new a ≡ old a) ⊎ (new a ≡ none))
    → {a n : ℕ} → Rooted old a n
    → (m : ℕ) × Rooted new a m
rooted_pruned c (Rooted.root {a = a} e) = elim (c a) [
  | inl q ↦ (0, Rooted.root (q ∙ e))
  | inr q ↦ (0, Rooted.root q)
]
rooted_pruned c (Rooted.below {a = a} e r) = elim (c a) [
  | inl q ↦ let (m, above) = rooted_pruned c r in (suc m, Rooted.below (q ∙ e) above)
  | inr q ↦ (0, Rooted.root q)
]

-- Every identifier is below a root, and every parent is in the table.
pub record IsForest (lessons : List Lesson) : Type 0 where
  pub rooted : (a : ℕ) → (n : ℕ) × Rooted (parents lessons) a n
  pub known : (a p : ℕ) → parents lessons a ≡ some p → mem p (ids lessons) ≡ true

-- The walk up from a known lesson does not meet an identifier that is not in the table.
absent-Avoids :
    (lessons : List Lesson) (absent : ℕ)
    → IsForest lessons
    → mem absent (ids lessons) ≡ false
    → {a n : ℕ} → mem a (ids lessons) ≡ true
    → Rooted (parents lessons) a n
    → Avoids (parents lessons) absent a
absent-Avoids lessons absent f gone {a} m (Rooted.root e) =
    Avoids.last (λ (same : a ≡ absent). ground (arith, ap (λ x. mem x (ids lessons)) same)) e
absent-Avoids lessons absent f gone {a} m (Rooted.below {p = p} e r) =
    Avoids.more (λ (same : a ≡ absent). ground (arith, ap (λ x. mem x (ids lessons)) same)) e
      (absent-Avoids lessons absent f gone (f.known a p e) r)

-- A parent that was checked is in the table, and its walk up does not meet the current lesson.
pub checked_known :
    (lessons : List Lesson) (course_id p : ℕ) (current : Option ℕ)
    → validate_parent_lesson lessons course_id (some p) current ≡ ok tt
    → mem p (ids lessons) ≡ true
unfolding validate_parent_lesson
checked_known lessons course_id p current h = elim (Option-cases (with_id p lessons)) [
  | inl n ↦ absurd (ground arith)
  | inr (l, f) ↦ mem-ids p lessons f
]

checked-Avoids :
    (lessons : List Lesson) (course_id p current n : ℕ)
    → validate_parent_lesson lessons course_id (some p) (some current) ≡ ok tt
    → Rooted (parents lessons) p n
    → Avoids (parents lessons) current p
unfolding validate_parent_lesson
checked-Avoids lessons course_id p current n h r = elim (Option-cases (with_id p lessons)) [
  | inl m ↦ absurd (ground arith)
  | inr (l, f) ↦
      let id : l.id ≡ p = (==_iff l.id p).0 (find_passes (λ m. m.id == p) lessons f) in
      let not_own : (l.id == current) ≡ false = ground arith in
      let under = subst (λ x. Rooted (parents lessons) x n) (sym id) r in
      subst (λ x. Avoids (parents lessons) current x) id
        (climb-Avoids lessons current (enough lessons) (l.id ∷ []) l n
          (subst (λ x. with_id x lessons ≡ some l) (sym id) f) (apart l.id current not_own) under
          (λ v m. (
            n,
            subst (λ x. Rooted (parents lessons) x n) ((==_iff l.id v).0 (ground arith)) under,
            omega arith,
          ))
          (ground arith))
]

-- The table with one more or one other parent, if the parent was checked or is none.
module _ (lessons changed_lessons : List Lesson) (changed : ℕ) (f : IsForest lessons)
    (c : IsChange (parents lessons) (parents changed_lessons) changed) where
  rooted_under :
      (p : ℕ)
      → parents changed_lessons changed ≡ some p
      → Avoids (parents lessons) changed p
      → (a : ℕ) → (n : ℕ) × Rooted (parents changed_lessons) a n
  rooted_under p e v a =
      let (m, top) = rooted_avoiding c v in rooted_after c (Rooted.below e top) (f.rooted a).1

  pub rooted_as_root :
      parents changed_lessons changed ≡ none
      → (a : ℕ) → (n : ℕ) × Rooted (parents changed_lessons) a n
  rooted_as_root e a = rooted_after c (Rooted.root e) (f.rooted a).1

  pub rooted_checked :
      (course_id p : ℕ)
      → parents changed_lessons changed ≡ some p
      → validate_parent_lesson lessons course_id (some p) (some changed) ≡ ok tt
      → (a : ℕ) → (n : ℕ) × Rooted (parents changed_lessons) a n
  rooted_checked course_id p e h =
      rooted_under p e (checked-Avoids lessons course_id p changed (f.rooted p).0 h (f.rooted p).1)

  pub rooted_new :
      (p : ℕ)
      → parents changed_lessons changed ≡ some p
      → mem p (ids lessons) ≡ true
      → mem changed (ids lessons) ≡ false
      → (a : ℕ) → (n : ℕ) × Rooted (parents changed_lessons) a n
  rooted_new p e m gone = rooted_under p e (absent-Avoids lessons changed f gone m (f.rooted p).1)
