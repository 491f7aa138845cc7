-- ===== src/Courses/Hierarchy/Ends.antt =====
-- The walk ends: each round visits another lesson of the table.
use lms_backend.Base.{
  ℕ, zero, suc, ◌+◌, ◌≡◌, ◌≢◌, ◌≤◌, ◌<◌, refl, true, false, Option, none, some, List, [], ◌∷◌,
  Result, arith, ◌==◌, length, inl, inr, Option-cases, ◌⊎◌, find_passes, ==_iff,
}
use lms_backend.Base.Sets.{mem, Distinct, Subset, length-Subset}
use lms_backend.Db.{Lesson}
use lms_backend.Courses.Hierarchy.{with_id, Round, ended, climbed, round, climb, enough}

abbrev pub ids : List Lesson → List ℕ
ids [] = []
ids (l ∷ lessons) = l.id ∷ ids lessons

length-ids : (lessons : List Lesson) → length (ids lessons) ≡ length lessons
length-ids [] = refl
length-ids (l ∷ lessons) = omega (arith, length-ids lessons)

pub mem-ids :
    (id : ℕ) (lessons : List Lesson) {l : Lesson}
    → with_id id lessons ≡ some l
    → mem id (ids lessons) ≡ true
mem-ids id [] h = cc
mem-ids id (l ∷ lessons) {l = found} h = ground (arith, mem-ids id lessons {l = found})

pub Round-cases :
    (r : Round)
    → ((e : Result (Unit {0})) × (r ≡ ended e))
      ⊎ ((id : ℕ) × (next : Lesson) × (r ≡ climbed id next))
Round-cases (ended e) = inl (e, refl)
Round-cases (climbed id next) = inr (id, next, refl)

-- A round that climbs has found a lesson of the table that was not visited.
pub round-climbs :
    (lessons : List Lesson) (current : Option ℕ) (visited : List ℕ) (a next : Lesson) (id : ℕ)
    → round lessons current visited a ≡ climbed id next
    → (mem id visited ≡ false) × (with_id id lessons ≡ some next)
unfolding round
round-climbs lessons current visited a next id h = ground arith

Subset-cons : (id : ℕ) (xs ys : List ℕ) → mem id ys ≡ true → Subset xs ys → Subset (id ∷ xs) ys
Subset-cons id xs ys m s a h = ground (arith, s a, ==_iff id a)

-- Fuel for the lessons that are not visited yet, and one round more, is enough.
climb-ends :
    (lessons : List Lesson) (current : Option ℕ) (fuel : ℕ) (visited : List ℕ) (a : Lesson)
    → Distinct visited
    → Subset visited (ids lessons)
    → length lessons < fuel + length visited
    → climb lessons current fuel visited a ≢ none
unfolding climb
climb-ends lessons current zero visited a d s n h =
    omega (arith, length-Subset visited (ids lessons) d s, length-ids lessons)
climb-ends lessons current (suc fuel) visited a d s n h =
    elim (Round-cases (round lessons current visited a)) [
      | inl (e, q) ↦ ground (arith, q)
      | inr (id, next, q) ↦
          let (fresh, known) = round-climbs lessons current visited a next id q in
          climb-ends lessons current fuel (id ∷ visited) next (fresh, d)
            (Subset-cons id visited (ids lessons) (mem-ids id lessons known) s) (omega arith)
            (ground (arith, q))
    ]

climb-more :
    (lessons : List Lesson) (current : Option ℕ) (fuel more : ℕ) (visited : List ℕ) (a : Lesson)
    {r : Result (Unit {0})}
    → climb lessons current fuel visited a ≡ some r
    → fuel ≤ more
    → climb lessons current more visited a ≡ some r
unfolding climb
climb-more lessons current zero more visited a h n = cc
climb-more lessons current (suc fuel) zero visited a h n = absurd (omega arith)
climb-more lessons current (suc fuel) (suc more) visited a {r = r} h n =
    elim (Round-cases (round lessons current visited a)) [
      | inl (e, q) ↦ ground (arith, q)
      | inr (id, next, q) ↦
          ground (arith, q, climb-more lessons current fuel more (id ∷ visited) next {r = r})
    ]

-- The walk up from a lesson of the table ends, whatever the parents are, cycles included: one round for
-- each lesson and one more give its result, and so does every larger number of rounds.
pub climb_ends :
    (lessons : List Lesson) (current : Option ℕ) (id : ℕ) (parent : Lesson)
    → with_id id lessons ≡ some parent
    → (r : Result (Unit {0})) × ((fuel : ℕ)
        → enough lessons ≤ fuel
        → climb lessons current fuel (parent.id ∷ []) parent ≡ some r)
climb_ends lessons current id parent h =
    let same = (==_iff parent.id id).0 (find_passes (λ l. l.id == id) lessons h) in
    elim (Option-cases (climb lessons current (enough lessons) (parent.id ∷ []) parent)) [
      | inl n ↦ absurd (
          climb-ends lessons current (enough lessons) (parent.id ∷ []) parent (refl, tt)
            (λ a m. ground (arith, same, mem-ids id lessons h, ==_iff parent.id a)) (omega arith) n)
      | inr (r, e) ↦ (
        r,
        λ fuel n. climb-more lessons current (enough lessons) fuel (parent.id ∷ []) parent e n,
      )
    ]
