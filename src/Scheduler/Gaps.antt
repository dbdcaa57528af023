-- ===== src/Scheduler/Gaps.antt =====
-- internal/scheduler/scheduler.go: the map of pending gaps, and what a pending gap stands for.
use flameping.Prelude.{
  ℕ, zero, suc, ◌+◌, ◌*◌, ◌%◌, ◌^◌, ◌≤◌, ◌<◌, ◌≡◌, refl, ap, ◌∙◌, List, [], ◌∷◌, ◌==◌,
  if◌then◌else◌, Option, none, some, arith,
}
use flameping.Scheduler.{Gap, find_gap, delete_gap, add_gap}

-- The gap of a target after `n` more misses.
abbrev pub extended : ℕ → ℕ → ℕ → ℕ → Option Gap → Gap
extended id interval first n none = record {
  target_id = id;
  first_scheduled = first;
  interval = interval;
  missed_count = n;
}
extended id interval first n (some g) = record g { missed_count = (g.missed_count + n) % 2 ^ 64 }

pub find_gap-add_gap :
    (j id interval first n : ℕ) (gs : List Gap)
    → find_gap j (add_gap id interval first n gs) ≡ (
        if n == 0
        then find_gap j gs
        else if j == id
        then some (extended id interval first n (find_gap id gs))
        else find_gap j gs)
unfolding find_gap add_gap
find_gap-add_gap j id interval first n [] = ground arith
find_gap-add_gap j id interval first n (g ∷ gs) =
    ground (arith, find_gap-add_gap j id interval first n gs)

pub find_gap-delete_gap :
    (j id : ℕ) (gs : List Gap)
    → find_gap j (delete_gap id gs) ≡ (if j == id then none else find_gap j gs)
unfolding find_gap delete_gap
find_gap-delete_gap j id [] = ground arith
find_gap-delete_gap j id (g ∷ gs) = ground (arith, find_gap-delete_gap j id gs)

-- A pending gap is of the entry's cadence, and its missed slots are exactly the slots from its first
-- one up to the entry's deadline.
abbrev pub Covers : ℕ → ℕ → Option Gap → Type 0
Covers interval next none = Unit
Covers interval next (some g) =
    (g.interval ≡ interval) × (g.first_scheduled + g.missed_count * interval ≡ next)

none_plus : (n : ℕ) → 0 + n ≡ n
none_plus n = omega arith

plus_none : (first interval : ℕ) → first + 0 * interval ≡ first
plus_none first interval = omega arith

suc_plus : (m n : ℕ) → suc m + n ≡ suc (m + n)
suc_plus m n = omega arith

plus_suc : (first interval m : ℕ) → first + suc m * interval ≡ first + interval + m * interval
plus_suc first interval m = omega arith

-- How many of the `n` slots from `first` on, an interval apart, are at the time `t`.
unfoldable pub hits : ℕ → ℕ → ℕ → ℕ → ℕ
hits first interval zero t = 0
hits first interval (suc n) t = (if t == first then 1 else 0) + hits (first + interval) interval n t

-- The slots after the first `m` go on where those end.
pub hits-add :
    (m n first interval t : ℕ)
    → hits first interval (m + n) t
      ≡ hits first interval m t + hits (first + m * interval) interval n t
unfolding hits
hits-add zero n first interval t = rw (none_plus n, plus_none first interval) (omega arith)
hits-add (suc m) n first interval t =
    rw (suc_plus m n, hits-add m n (first + interval) interval t, plus_suc first interval m)
      (omega arith)

-- How many of the missed slots of a pending gap are at the time.
abbrev pub missed : ℕ → Option Gap → ℕ
missed t none = 0
missed t (some g) = hits g.first_scheduled g.interval g.missed_count t

le-mul : (m interval : ℕ) → 0 < interval → m ≤ m * interval
le-mul m interval h = grind arith

-- Misses from the deadline on extend the gap, or begin one, by exactly the slots that were missed,
-- without a wrap of the count.
extended-Covers :
    (id interval next n t : ℕ) (o : Option Gap)
    → 0 < interval
    → next + n * interval < 2 ^ 64
    → Covers interval next o
    → Covers interval (next + n * interval) (some (extended id interval next n o))
      × (missed t (some (extended id interval next n o)) ≡ missed t o + hits next interval n t)
extended-Covers id interval next n t none pos room c = ((refl, refl), omega arith)
extended-Covers id interval next n t (some g) pos room c =
    let whole : (g.missed_count + n) % 2 ^ 64 ≡ g.missed_count + n =
      omega (arith, c, le-mul (g.missed_count + n) interval pos) in
    rw whole (
      (c.0, omega (arith, c)),
      hits-add g.missed_count n g.first_scheduled g.interval t
          ∙ ap (λ z. hits g.first_scheduled g.interval g.missed_count t + z) (rw (c.0, c.1) refl),
    )

pub add_gap-Covers :
    (id interval next n t : ℕ) (gs : List Gap)
    → 0 < interval
    → next + n * interval < 2 ^ 64
    → Covers interval next (find_gap id gs)
    → Covers interval (next + n * interval) (find_gap id (add_gap id interval next n gs))
      × (missed t (find_gap id (add_gap id interval next n gs))
          ≡ missed t (find_gap id gs) + hits next interval n t)
unfolding hits
add_gap-Covers id interval next n t gs pos room c =
    rw (find_gap-add_gap id id interval next n gs)
      (ground (arith, extended-Covers id interval next n t (find_gap id gs) pos room c))
