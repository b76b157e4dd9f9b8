-- ===== src/Retention.antt =====
-- core/services/retention_service.py: which runs of a script a cleanup deletes. Times are seconds.
pub mod Newest
use py_runner.Prelude.{
  ℕ, zero, suc, ◌+◌, ◌*◌, Bool, true, false, not, ◌&&◌, ◌||◌, Option, none, some, List, [], ◌∷◌,
  any, keep, length, if◌then◌else◌, ltb, leb, ◌==◌,
}

-- a row of the runs table, as far as retention looks at it
pub record Row : Type 0 where
  pub key : ℕ
  pub created_at : ℕ

pub record Settings : Type 0 where
  pub retention_days : ℕ
  pub retention_count : ℕ

pub record Script : Type 0 where
  pub days_override : Option ℕ
  pub count_override : Option ℕ
  pub runs : List Row

abbrev pub or_default : Option ℕ → ℕ → ℕ
or_default none d = d
or_default (some n) d = n

-- `get_effective_retention`
abbrev pub get_effective_retention : Settings → Script → ℕ × ℕ
get_effective_retention s script = (
  or_default script.days_override s.retention_days,
  or_default script.count_override s.retention_count,
)

-- `order_by("-created_at")`
unfoldable pub insert_newest : Row → List Row → List Row
insert_newest r [] = r ∷ []
insert_newest r (x ∷ xs) =
    let rest = insert_newest r xs in if leb x.created_at r.created_at then r ∷ x ∷ xs else x ∷ rest

unfoldable pub newest_first : List Row → List Row
newest_first [] = []
newest_first (r ∷ rest) = insert_newest r (newest_first rest)

abbrev pub take : ℕ → List Row → List Row
take zero xs = []
take (suc n) [] = []
take (suc n) (x ∷ xs) = x ∷ take n xs

abbrev pub has_key : ℕ → List Row → Bool
has_key k rows = any (λ r. r.key == k) rows

abbrev pub seconds_per_day : ℕ
seconds_per_day = 86400

-- `created_at >= now - days`
abbrev pub is_recent : ℕ → ℕ → Row → Bool
is_recent now days r = leb now (r.created_at + days * seconds_per_day)

-- membership in `runs_to_keep_ids`
unfoldable pub is_kept : ℕ → ℕ → ℕ → List Row → Row → Bool
unfolding newest_first
is_kept now days count rows r =
    ltb 0 days && any (λ x. x.key == r.key && is_recent now days x) rows
    || ltb 0 count && has_key r.key (take count (newest_first rows))

-- `get_runs_to_delete_for_script`; a parameter that is not given takes the effective setting
unfoldable pub get_runs_to_delete_for_script :
    Settings → ℕ → Script → Option ℕ → Option ℕ → List Row
get_runs_to_delete_for_script s now script days_param count_param =
    let (d, c) = get_effective_retention s script in
    let days = or_default days_param d in
    let count = or_default count_param c in
    if days == 0 && count == 0
    then []
    else keep (λ r. not (is_kept now days count script.runs r)) script.runs

-- `cleanup_runs_for_script`: the script with its remaining runs, and the number deleted
unfoldable pub cleanup_runs_for_script : Settings → ℕ → Option ℕ → Option ℕ → Script → Script × ℕ
unfolding get_runs_to_delete_for_script
cleanup_runs_for_script s now days count script =
    let doomed = get_runs_to_delete_for_script s now script days count in
    (record script { runs = keep (λ r. not (has_key r.key doomed)) script.runs }, length doomed)

-- `cleanup_all_runs`
unfoldable pub cleanup_all_runs : Settings → ℕ → List Script → List Script × ℕ
unfolding cleanup_runs_for_script
cleanup_all_runs s now [] = ([], 0)
cleanup_all_runs s now (script ∷ rest) =
    let (script', deleted) = cleanup_runs_for_script s now none none script in
    let (rest', total) = cleanup_all_runs s now rest in (script' ∷ rest', deleted + total)
