-- ===== src/Runs/Reconcile.antt =====
-- `Run.reconcile_stale` of core/models/run.py: runs whose worker died are marked failed.
pub mod Effects
use Prim.Native.String.{String}
use Prim.Native.String
use mathlib.Core.List.{◌++◌}
use py_runner.Prelude.{
  ℕ, ◌+◌, ◌≡◌, Bool, true, false, not, ◌&&◌, ◌||◌, Option, none, some, List, [], ◌∷◌, map, keep,
  any, length, if◌then◌else◌, ◌==◌, ltb, leb,
}
use py_runner.Runs.Model.{Status, Run, pending, running, failed, is_pending, is_running, minus_one}
use py_runner.Runs.Control.{update_where}

-- RECONCILE_GRACE_SECONDS and RECONCILE_PENDING_AFTER, in seconds
abbrev pub reconcile_grace_seconds : ℕ
reconcile_grace_seconds = 300

abbrev pub reconcile_pending_after : ℕ
reconcile_pending_after = 86400

-- WORKER_HEARTBEAT_TIMEOUT_SECONDS and `worker_is_alive` of core/models/settings.py
abbrev pub worker_heartbeat_timeout_seconds : ℕ
worker_heartbeat_timeout_seconds = 180

unfoldable pub worker_is_alive : ℕ → Option ℕ → Bool
worker_is_alive now none = false
worker_is_alive now (some heartbeat) = ltb now (heartbeat + worker_heartbeat_timeout_seconds)

-- `status=RUNNING, started_at__isnull=False, started_at__lt=now - grace`
abbrev pub is_candidate : ℕ → Run → Bool
is_candidate now r =
    is_running r.status
    && elim r.started_at [ none ↦ false | some t ↦ ltb (t + reconcile_grace_seconds) now ]

-- past `started_at + timeout + grace`
abbrev pub past_deadline : ℕ → Run → Bool
past_deadline now r = elim r.started_at [
  | none ↦ false
  | some t ↦ leb (t + r.timeout_seconds + reconcile_grace_seconds) now
]

unfoldable pub is_dead : ℕ → Run → Bool
is_dead now r = is_candidate now r && past_deadline now r

-- The update of a dead run; `marker` prints the message for its timeout.
unfoldable pub fail_dead : (ℕ → String) → ℕ → Run → Run
fail_dead marker now r = record r {
  status = failed;
  exit_code = minus_one;
  stderr = String.◌++◌ r.stderr (marker r.timeout_seconds);
  ended_at = some now;
  pid = none;
}

-- `status=PENDING, created_at__lt=now - RECONCILE_PENDING_AFTER`
unfoldable pub is_lost : ℕ → Run → Bool
is_lost now r = is_pending r.status && ltb (r.created_at + reconcile_pending_after) now

unfoldable pub fail_lost : String → ℕ → Run → Run
fail_lost message now r = record r {
  status = failed;
  exit_code = minus_one;
  stderr = message;
  ended_at = some now;
}

abbrev pub keys_where : (Run → Bool) → List Run → List ℕ
keys_where test rows = map (λ r. r.key) (keep test rows)

pub record Reconciled : Type 0 where
  pub rows : List Run
  pub count : ℕ
  pub notified : List ℕ

-- The first pass, over running rows. The source selects the rows and tests their status again as it
-- updates each; here nothing comes between, and the two are one step, in both passes.
unfoldable pub reconcile_running : (ℕ → String) → ℕ → List Run → Reconciled
reconcile_running marker now rows = record {
  rows = update_where (is_dead now) (fail_dead marker now) rows;
  count = length (keys_where (is_dead now) rows);
  notified = keys_where (is_dead now) rows;
}

-- the second pass, over pending rows
unfoldable pub reconcile_pending : String → ℕ → Reconciled → Reconciled
reconcile_pending message now r = record {
  rows = update_where (is_lost now) (fail_lost message now) r.rows;
  count = r.count + length (keys_where (is_lost now) r.rows);
  notified = r.notified ++ keys_where (is_lost now) r.rows;
}

-- `reconcile_stale`
unfoldable pub reconcile_stale : (ℕ → String) → String → ℕ → Option ℕ → List Run → Reconciled
unfolding reconcile_running reconcile_pending
reconcile_stale marker message now heartbeat rows =
    let first = reconcile_running marker now rows in
    if worker_is_alive now heartbeat then reconcile_pending message now first else first
