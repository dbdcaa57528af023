-- ===== src/Store/Fresh/Tables.antt =====
-- internal/store/sqlite/rollup.go: a stored rollup keeps the table in the order of its keys.
use flameping.Prelude.{◌≡◌, List, [], ◌∷◌, true, false, if◌then◌else◌, arith, All, if_cases}
use flameping.Store.Fresh.{IsAligned, IsBefore, IsTable}
use flameping.Store.Pings.Rollup.{PingRollup}
use flameping.Store.Recompute.{has_bucket, is_before, upsert}

IsBefore-trans : (x y z : PingRollup) → IsBefore x y → IsBefore y z → IsBefore x z
unfolding is_before
IsBefore-trans x y z h k = ground arith

-- Of two rows with different keys one comes first.
IsBefore-total :
    (x r : PingRollup)
    → has_bucket r.target_id r.resolution_s r.bucket_start_us x ≡ false
    → is_before x r.target_id r.resolution_s r.bucket_start_us ≡ false
    → IsBefore r x
unfolding is_before has_bucket
IsBefore-total x r h k = ground arith

All-IsBefore :
    (x y : PingRollup) (rs : List PingRollup)
    → IsBefore x y
    → All (IsBefore y) rs
    → All (IsBefore x) rs
All-IsBefore x y [] h k = tt
All-IsBefore x y (r ∷ rs) h k = (IsBefore-trans x y r h k.0, All-IsBefore x y rs h k.1)

upsert-Before :
    (x r : PingRollup) (rs : List PingRollup)
    → IsBefore x r
    → All (IsBefore x) rs
    → All (IsBefore x) (upsert r rs)
unfolding upsert
upsert-Before x r [] h k = (h, tt)
upsert-Before x r (y ∷ ys) h k = ground (arith, h, k, upsert-Before x r ys h k.1)

-- What comes after a row comes after any row with its key.
same_place :
    (x r y : PingRollup)
    → has_bucket r.target_id r.resolution_s r.bucket_start_us x ≡ true
    → (IsBefore x y → IsBefore r y)
unfolding has_bucket is_before
same_place x r y h k = ground (arith, h, k)

All-same_place :
    (x r : PingRollup) (rs : List PingRollup)
    → has_bucket r.target_id r.resolution_s r.bucket_start_us x ≡ true
    → All (IsBefore x) rs
    → All (IsBefore r) rs
All-same_place x r [] h k = tt
All-same_place x r (y ∷ ys) h k = (same_place x r y h k.0, All-same_place x r ys h k.1)

pub upsert-IsTable :
    (r : PingRollup) (rs : List PingRollup) → IsAligned r → IsTable rs → IsTable (upsert r rs)
unfolding upsert
upsert-IsTable r [] a table = (a, tt, tt)
upsert-IsTable r (x ∷ xs) a (b, after, table) =
    if_cases IsTable (has_bucket r.target_id r.resolution_s r.bucket_start_us x) (r ∷ xs)
      (if is_before x r.target_id r.resolution_s r.bucket_start_us
        then x ∷ upsert r xs
        else r ∷ x ∷ xs)
      (λ same. (a, All-same_place x r xs same after, table))
      (λ other.
        if_cases IsTable (is_before x r.target_id r.resolution_s r.bucket_start_us)
          (x ∷ upsert r xs) (r ∷ x ∷ xs)
          (λ first. (b, upsert-Before x r xs first after, upsert-IsTable r xs a table))
          (λ later.
            let front : IsBefore r x = IsBefore-total x r other later in
            (a, (front, All-IsBefore r x xs front after), (b, after, table))))
