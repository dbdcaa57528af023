-- ===== src/Store/Periodic.antt =====
-- internal/store/sqlite/rollup.go, `countPeriodic`: how many slots of a cadence lie in a range.
use flameping.Prelude.{
  subst, ℕ, zero, suc, ◌+◌, ◌-◌, ◌*◌, ◌/◌, ◌≤◌, ◌<◌, ◌≡◌, refl, ltb, leb, ◌==◌, ◌&&◌, ◌||◌,
  if◌then◌else◌, arith, Bool-cases, inl, inr, leb→lt,
}
use flameping.Prelude.Int.{ℤ, pos, negsuc, sub_ℕ, ltb_ℤ, pos_part}
use native.Mathlib.Nat.{lt-mul-div-succ, le-div_iff_mul-le, div-lt_iff_lt-mul}

-- Go's division of an int64 by a positive one truncates toward zero.
unfoldable pub quotient : ℤ → ℕ → ℤ
quotient (pos n) d = pos (n / d)
quotient (negsuc n) d = sub_ℕ 0 (suc n / d)

-- The numbers from `low` on, up to `reach` and below `count`.
unfoldable pub numbers : ℕ → ℤ → ℕ → ℕ
numbers low reach count =
    let high = if ltb_ℤ reach (pos count) then reach else pos (count - 1) in
    if ltb_ℤ high (pos low) then 0 else pos_part high - low + 1

unfoldable pub count_periodic : ℕ → ℕ → ℕ → ℕ → ℕ → ℕ
unfolding quotient numbers
count_periodic first step count from to =
    if step == 0 || count == 0 || leb to from
    then 0
    else numbers (if ltb first from then (from - first + step - 1) / step else 0)
        (quotient (sub_ℕ (to - 1) first) step) count

-- What it counts: the slots `first + k * step` from `from` on and before `to`, for `k` under `count`.
unfoldable pub slots : ℕ → ℕ → ℕ → ℕ → ℕ → ℕ
slots first step zero from to = 0
slots first step (suc k) from to =
    slots first step k from to
    + (if leb from (first + k * step) && ltb (first + k * step) to then 1 else 0)

-- The slots of two adjacent ranges are those of both together.
pub slots-adjacent :
    (first step count a b c : ℕ)
    → a ≤ b
    → b ≤ c
    → slots first step count a c ≡ slots first step count a b + slots first step count b c
unfolding slots
slots-adjacent first step zero a b c h k = refl
slots-adjacent first step (suc n) a b c h k = ground (arith, slots-adjacent first step n a b c h k)

pub slots_empty : (first step count from to : ℕ) → to ≤ from → slots first step count from to ≡ 0
unfolding slots
slots_empty first step zero from to h = refl
slots_empty first step (suc k) from to h = ground (arith, slots_empty first step k from to h)

-- From the first slot in the range, number `low`, to the last, number `high`.
slots_closed :
    (first step from to low high count : ℕ)
    → ((k : ℕ) → leb from (first + k * step) ≡ leb low k)
    → ((k : ℕ) → ltb (first + k * step) to ≡ leb k high)
    → low ≤ suc high
    → slots first step count from to
      ≡ (if leb count low then 0 else if leb count (suc high) then count - low else suc high - low)
unfolding slots
slots_closed first step from to low high zero l h o = ground arith
slots_closed first step from to low high (suc k) l h o =
    ground (arith, l k, h k, slots_closed first step from to low high k l h o)

low_lem :
    (first step from k : ℕ)
    → 0 < step
    → leb from (first + k * step)
      ≡ leb (if ltb first from then (from - first + step - 1) / step else 0) k
low_lem first step from k h =
    ground (arith, div-lt_iff_lt-mul {k = step} {x = from - first + step - 1} {y = suc k} h)

high_lem :
    (first step to k : ℕ)
    → 0 < step
    → first < to
    → ltb (first + k * step) to ≡ leb k ((to - 1 - first) / step)
high_lem first step to k h l =
    ground (arith, le-div_iff_mul-le {k = step} {x = k} {y = to - 1 - first} h)

-- The first slot in the range is at most one past the last.
low_high :
    (first step from to : ℕ)
    → 0 < step
    → from < to
    → first < to
    → (if ltb first from then (from - first + step - 1) / step else 0)
      ≤ suc ((to - 1 - first) / step)
low_high first step from to h r l = ground (
  arith,
  div-lt_iff_lt-mul {k = step} {x = from - first + step - 1}
      {y = suc (suc ((to - 1 - first) / step))} h,
  lt-mul-div-succ (to - 1 - first) h,
)

numbers_closed :
    (low high count : ℕ)
    → low ≤ suc high
    → 0 < count
    → numbers low (pos high) count
      ≡ (if leb count low then 0 else if leb count (suc high) then count - low else suc high - low)
unfolding numbers
numbers_closed low high count h k = ground arith

quotient_known :
    (first step to : ℕ)
    → first < to
    → quotient (sub_ℕ (to - 1) first) step ≡ pos ((to - 1 - first) / step)
unfolding quotient
quotient_known first step to h = ground arith

-- For a step of at least one, and a range that ends after the first slot, countPeriodic counts
-- exactly the slots in the range.
pub count_periodic-slots :
    (first step count from to : ℕ)
    → 0 < step
    → first < to
    → count_periodic first step count from to ≡ slots first step count from to
unfolding count_periodic
count_periodic-slots first step zero from to h l = unfold slots in ground arith
count_periodic-slots first step (suc n) from to h l = elim (Bool-cases (leb to from)) [
  | inl empty ↦ ground (arith, empty, slots_empty first step (suc n) from to)
  | inr some_range ↦
      let low : ℕ = if ltb first from then (from - first + step - 1) / step else 0 in
      let high : ℕ = (to - 1 - first) / step in
      let bound : low ≤ suc high = low_high first step from to h (leb→lt to from some_range) l in
      rw
        (
          some_range,
          quotient_known first step to l,
          numbers_closed low high (suc n) bound (omega arith),
          slots_closed first step from to low high (suc n) (λ k. low_lem first step from k h)
              (λ k. high_lem first step to k h l) bound,
        )
        (ground arith)
]

-- The slots of a gap outside the range that the query selects.
pub slots_before : (first step count from to : ℕ) → to ≤ first → slots first step count from to ≡ 0
unfolding slots
slots_before first step zero from to h = refl
slots_before first step (suc k) from to h = ground (arith, slots_before first step k from to h)

slots_end :
    (first step k from to : ℕ) → first + k * step < from → slots first step (suc k) from to ≡ 0
unfolding slots
slots_end first step zero from to h = ground (arith, h)
slots_end first step (suc k) from to h =
    ground (arith, h, slots_end first step k from to (omega (arith, h)))

pub slots_after :
    (first step count from to : ℕ)
    → (0 < count → first + (count - 1) * step < from)
    → slots first step count from to ≡ 0
slots_after first step zero from to h = unfold slots in refl
slots_after first step (suc k) from to h =
    slots_end first step k from to
      (subst (λ (n : ℕ). first + n * step < from) (omega arith) (h (omega arith)))

-- A step of less than a microsecond counts nothing.
pub count_periodic_still : (first count from to : ℕ) → count_periodic first 0 count from to ≡ 0
unfolding count_periodic
count_periodic_still first count from to = ground arith
