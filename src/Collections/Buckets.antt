-- ===== src/Collections/Buckets.antt =====
-- The buckets and the levels of collections (`bucket_for`, `bucket_range`, `due_reminder_milestone`
-- and `escalation_level_for` of app/domain/collections.py).
use inpockets.Base.{ℕ, ◌≤◌, Option, none, some, ◌≡◌, ◌↔◌, arith}
use inpockets.Collections.{
  Bucket, days_1_7, days_8_30, days_31_60, days_61_90, days_91, buckets, last_reached, bucket_for,
  range_in, bucket_range, escalation_thresholds, level_in, escalation_level_for,
}

-- A number of days in a range that may be open-ended.
abbrev pub IsIn : ℕ → Option (ℕ × Option ℕ) → Type 0
IsIn dpd none = ⊥
IsIn dpd (some (low, none)) = low ≤ dpd
IsIn dpd (some (low, some high)) = (low ≤ dpd) × (dpd ≤ high)

-- `bucket_for` gives a bucket exactly where the days are in the range that `bucket_range` gives
-- for it.
pub bucket_for-bucket_range :
    (dpd : ℕ) (label : Bucket) → (bucket_for dpd ≡ some label) ↔ IsIn dpd (bucket_range label)
unfolding bucket_for last_reached buckets bucket_range range_in
bucket_for-bucket_range dpd days_1_7 = ground arith
bucket_for-bucket_range dpd days_8_30 = ground arith
bucket_for-bucket_range dpd days_31_60 = ground arith
bucket_for-bucket_range dpd days_61_90 = ground arith
bucket_for-bucket_range dpd days_91 = ground arith

-- No bucket is given exactly where nothing is past due.
pub bucket_for-none : (dpd : ℕ) → (bucket_for dpd ≡ none) ↔ (dpd ≡ 0)
unfolding bucket_for last_reached buckets
bucket_for-none dpd = ground arith

-- More days past due never lower the level of escalation.
pub escalation_level_for-monotone :
    (m n : ℕ) → m ≤ n → escalation_level_for m ≤ escalation_level_for n
unfolding escalation_level_for level_in escalation_thresholds
escalation_level_for-monotone m n h = ground arith
