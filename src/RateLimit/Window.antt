-- ===== src/RateLimit/Window.antt =====
-- Exactly `limit` hits pass in a window, and windows and keys do not disturb one another.
use Prim.Native.String.{String}
use text.Mathlib.TextPositions.{eq_refl}
use text.Mathlib.TextEquality.{eq_iff}
use native.Mathlib.Nat.{mod-add-div', mod-lt, mul-div_cancel, mul-mod_left}
use py_runner.Prelude.{
  ℕ, suc, ◌+◌, ◌*◌, ◌/◌, ◌%◌, ◌≤◌, ◌<◌, ◌≡◌, ◌≢◌, ◌⊎◌, refl, subst, Bool, false, List, [], ◌∷◌, All,
  length, ltb, ==_refl, arith,
}
use py_runner.RateLimit.{Cache, or_zero, rate_limit_exceeded, seconds_to_window_reset, hits}

-- the counter of a window
abbrev pub count_at : String → ℕ → Cache → ℕ
count_at key bucket cache = or_zero (cache key bucket)

count_at-hit :
    (key : String) (limit w now : ℕ) (cache : Cache)
    → count_at key (now / w) (rate_limit_exceeded key limit w false now cache).0
      ≡ suc (count_at key (now / w) cache)
unfolding rate_limit_exceeded
count_at-hit key limit w now cache = ground (arith, eq_refl key, ==_refl (now / w))

over-hit :
    (key : String) (limit w now : ℕ) (cache : Cache)
    → (rate_limit_exceeded key limit w false now cache).1
      ≡ ltb limit (suc (count_at key (now / w) cache))
unfolding rate_limit_exceeded
over-hit key limit w now cache = ground (arith, eq_refl key, ==_refl (now / w))

-- the answers that a window with `n` hits counted gives to the next ones
abbrev pub budget : ℕ → ℕ → List ℕ → List Bool
budget limit n [] = []
budget limit n (t ∷ ts) = ltb limit (suc n) ∷ budget limit (suc n) ts

-- In a window that has counted `n` hits, the next hits at times in that window are answered by their
-- number alone: each is refused exactly when it is past the first `limit`, and each is counted.
pub hits-budget :
    (key : String) (limit w bucket : ℕ) (times : List ℕ) (cache : Cache)
    → All (λ t. t / w ≡ bucket) times
    → ((hits key limit w times cache).1 ≡ budget limit (count_at key bucket cache) times)
      × (count_at key bucket (hits key limit w times cache).0
          ≡ count_at key bucket cache + length times)
unfolding hits
hits-budget key limit w bucket [] cache a = (refl, omega arith)
hits-budget key limit w bucket (t ∷ ts) cache a =
    let cache' = (rate_limit_exceeded key limit w false t cache).0 in
    let counted : count_at key bucket cache' ≡ suc (count_at key bucket cache) =
      subst (λ b. count_at key b cache' ≡ suc (count_at key b cache)) a.0
        (count_at-hit key limit w t cache) in
    let over : (rate_limit_exceeded key limit w false t cache).1
        ≡ ltb limit (suc (count_at key bucket cache)) =
      subst
        (λ b.
          (rate_limit_exceeded key limit w false t cache).1
          ≡ ltb limit (suc (count_at key b cache)))
        a.0 (over-hit key limit w t cache) in
    let (answers, total) = hits-budget key limit w bucket ts cache' a.1 in
    (cc (over, answers, counted), omega (arith, total, counted))

-- A hit leaves every other window of its key and every window of other keys as it was.
pub rate_limit_exceeded-other :
    (key other : String) (limit w now bucket : ℕ) (culled : Bool) (cache : Cache)
    → (key ≢ other) ⊎ (now / w ≢ bucket)
    → (rate_limit_exceeded key limit w culled now cache).0 other bucket ≡ cache other bucket
unfolding rate_limit_exceeded
rate_limit_exceeded-other key other limit w now bucket culled cache h =
    ground (arith, eq_iff key other)

reset_time : (w now : ℕ) → 0 < w → now + seconds_to_window_reset w now ≡ (now / w + 1) * w
unfolding seconds_to_window_reset
reset_time w now h = ground (arith, mod-add-div' now w, mod-lt now h)

-- The time to the reset is positive and at most a window, and then the next window starts.
pub seconds_to_window_reset_lem :
    (w now : ℕ)
    → 0 < w
    → let left = seconds_to_window_reset w now in
      (0 < left) × (left ≤ w) × ((now + left) % w ≡ 0) × ((now + left) / w ≡ now / w + 1)
unfolding seconds_to_window_reset
seconds_to_window_reset_lem w now h = (
  ground (arith, mod-lt now h),
  ground (arith, mod-lt now h),
  rw (reset_time w now h) (mul-mod_left (now / w + 1) w),
  rw (reset_time w now h) (mul-div_cancel (now / w + 1) h),
)
