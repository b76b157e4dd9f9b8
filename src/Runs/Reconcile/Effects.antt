-- ===== src/Runs/Reconcile/Effects.antt =====
-- What the reconciler changes: dead and lost runs only, each once.
use Prim.Native.String.{String}
use py_runner.Prelude.{
  ℕ, ◌+◌, ◌<◌, ◌≡◌, refl, sym, ap, ◌∙◌, ◌⊎◌, inl, inr, true, false, ◌&&◌, Option, none, some, List,
  [], ◌∷◌, map, length, length-append, if◌then◌else◌, arith, Bool-cases,
}
use py_runner.Runs.Model.{Run, pending, running, failed, is_finished, minus_one}
use py_runner.Runs.Control.{update_where}
use py_runner.Runs.Reconcile.{
  is_dead, is_lost, fail_dead, fail_lost, keys_where, reconcile_stale, worker_is_alive,
  reconcile_grace_seconds, reconcile_pending_after,
}

module _ (marker : ℕ → String) (message : String) (now : ℕ) (heartbeat : Option ℕ) where
  -- what becomes of one row
  abbrev pub reconcile_row : Run → Run
  reconcile_row r =
      if is_dead now r
      then fail_dead marker now r
      else if worker_is_alive now heartbeat && is_lost now r
      then fail_lost message now r
      else r

  dead_not_lost : (r : Run) → is_lost now (fail_dead marker now r) ≡ false
  unfolding is_lost fail_dead
  dead_not_lost r = refl

  two_passes :
      (rows : List Run)
      → worker_is_alive now heartbeat ≡ true
      → update_where
          (is_lost now)
          (fail_lost message now)
          (update_where (is_dead now) (fail_dead marker now) rows)
        ≡ map reconcile_row rows
  two_passes [] a = refl
  two_passes (r ∷ rest) a = ground (arith, two_passes rest, dead_not_lost r)

  one_pass :
      (rows : List Run)
      → worker_is_alive now heartbeat ≡ false
      → update_where (is_dead now) (fail_dead marker now) rows ≡ map reconcile_row rows
  one_pass [] a = refl
  one_pass (r ∷ rest) a = ground (arith, one_pass rest)

  -- The two passes together change each row on its own, as `reconcile_row` does: dead runs by the first,
  -- lost ones by the second if a worker is alive, and all others not at all.
  pub reconcile_stale-rows :
      (rows : List Run)
      → (reconcile_stale marker message now heartbeat rows).rows ≡ map reconcile_row rows
  unfolding reconcile_stale
  reconcile_stale-rows rows = elim (Bool-cases (worker_is_alive now heartbeat)) [
    | inl a ↦ rw a (two_passes rows a)
    | inr n ↦ rw n (one_pass rows n)
  ]

  dead_running : (r : Run) → is_dead now r ≡ true → r.status ≡ running
  unfolding is_dead
  dead_running r h = ground arith

  lost_pending :
      (r : Run)
      → is_lost now r ≡ true
      → (r.status ≡ pending) × (r.created_at + reconcile_pending_after < now)
  unfolding is_lost
  lost_pending r h = (ground arith, ground arith)

  -- how a changed run looks, and why it was changed
  abbrev pub GivenUp : Run → Run → Type 0
  GivenUp before after =
      (after.status ≡ failed)
      × (after.exit_code ≡ minus_one)
      × (after.ended_at ≡ some now)
      × ((before.status ≡ running)
          ⊎ ((before.status ≡ pending)
              × (worker_is_alive now heartbeat ≡ true)
              × (before.created_at + reconcile_pending_after < now)))

  reconcile_row-GivenUp : (r : Run) → (reconcile_row r ≡ r) ⊎ GivenUp r (reconcile_row r)
  unfolding fail_dead fail_lost
  reconcile_row-GivenUp r = elim (Bool-cases (is_dead now r)) [
    | inl d ↦ inr (rw d (refl, refl, refl, inl (dead_running r d)))
    | inr n ↦ elim (Bool-cases (worker_is_alive now heartbeat)) [
      | inl a ↦ elim (Bool-cases (is_lost now r)) [
        | inl l ↦
            let (p, old) = lost_pending r l in
            inr (rw (n, a, l) (refl, refl, refl, inr (p, refl, old)))
        | inr f ↦ inl (rw (n, a, f))
      ]
      | inr a ↦ inl (rw (n, a))
    ]
  ]

  -- A run is changed only if it was running, or was pending for over a day while workers are alive; it
  -- is then failed with exit code -1 and ended now. A running one is left alone before its start plus
  -- its own timeout plus the grace, and past that it is failed and has no pid. A finished run is never
  -- changed.
  pub reconcile_row-cases :
      (r : Run)
      → let after = reconcile_row r in
        ((after ≡ r) ⊎ GivenUp r after)
        × (is_finished r.status ≡ true → after ≡ r)
        × ((t : ℕ)
            → r.status ≡ running
            → r.started_at ≡ some t
            → now < t + r.timeout_seconds + reconcile_grace_seconds
            → after ≡ r)
        × ((t : ℕ)
            → r.status ≡ running
            → r.started_at ≡ some t
            → t + r.timeout_seconds + reconcile_grace_seconds < now
            → (after.status ≡ failed) × (after.pid ≡ none))
  unfolding is_dead is_lost fail_dead fail_lost
  reconcile_row-cases r =
      (reconcile_row-GivenUp r, ground arith, ground arith, λ t s e d. (ground arith, ground arith))

  reconcile_row-idempotent : (r : Run) → reconcile_row (reconcile_row r) ≡ reconcile_row r
  unfolding is_dead is_lost fail_dead fail_lost
  reconcile_row-idempotent r = ground arith

  map-reconcile_row :
      (rows : List Run) → map reconcile_row (map reconcile_row rows) ≡ map reconcile_row rows
  map-reconcile_row [] = refl
  map-reconcile_row (r ∷ rest) = rw (reconcile_row-idempotent r, map-reconcile_row rest)

  counted :
      (rows : List Run)
      → let once = reconcile_stale marker message now heartbeat rows in
        once.count ≡ length once.notified
  unfolding reconcile_stale
  counted rows = elim (Bool-cases (worker_is_alive now heartbeat)) [
    | inl a ↦ rw a (sym (length-append (keys_where (is_dead now) rows) _))
    | inr n ↦ rw n
  ]

  -- Reconciling again at the same time changes no row, and the runs to notify are as many as counted.
  pub reconcile_stale-idempotent :
      (rows : List Run)
      → let once = reconcile_stale marker message now heartbeat rows in
        ((reconcile_stale marker message now heartbeat once.rows).rows ≡ once.rows)
        × (once.count ≡ length once.notified)
  reconcile_stale-idempotent rows = (
    reconcile_stale-rows (reconcile_stale marker message now heartbeat rows).rows
        ∙ (ap (map reconcile_row) (reconcile_stale-rows rows)
            ∙ (map-reconcile_row rows ∙ sym (reconcile_stale-rows rows))),
    counted rows,
  )
