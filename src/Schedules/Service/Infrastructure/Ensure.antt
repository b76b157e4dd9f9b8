-- ===== src/Schedules/Service/Infrastructure/Ensure.antt =====
-- Each infrastructure row exists once after it is ensured, and the backup's next run is the least.
use py_runner.Prelude.{
  ℕ, ◌+◌, ◌<◌, ◌≡◌, refl, ap, ◌∙◌, ◌++◌, Bool, true, false, not, ◌&&◌, Bool-cases, inl, inr, ◌⊎◌,
  ==_refl, List, [], ◌∷◌, any, keep, if◌then◌else◌, arith,
}
use py_runner.Schedules.Model.{Infra, scheduled_backup, QSchedule, Trigger, every_day, infra}
use py_runner.Schedules.NextRun.{weekly_candidate, daily_candidate}
use py_runner.Schedules.NextRun.Least.{Clocked}
use py_runner.Schedules.Service.{NewRow, Table, create}
use py_runner.Schedules.Service.Infrastructure.{
  is_infra, ensure, BackupSettings, BackupSchedule, disabled, backup_row, daily, weekly,
  backup_next_run, sync_backup_schedule,
}

-- how many rows bear a name
abbrev pub count : Infra → List QSchedule → ℕ
count k [] = 0
count k (r ∷ rest) = if is_infra k r then 1 + count k rest else count k rest

count-append : (k : Infra) (xs ys : List QSchedule) → count k (xs ++ ys) ≡ count k xs + count k ys
count-append k [] ys = omega arith
count-append k (x ∷ xs) ys = ground (arith, count-append k xs ys)

count-any : (k : Infra) (rows : List QSchedule) → any (is_infra k) rows ≡ false → count k rows ≡ 0
count-any k [] h = refl
count-any k (r ∷ rest) h = ground (arith, count-any k rest)

abbrev pub unnamed : Infra → List QSchedule → List QSchedule
unnamed k rows = keep (λ r. not (is_infra k r)) rows

unnamed-append :
    (k : Infra) (xs ys : List QSchedule) → unnamed k (xs ++ ys) ≡ unnamed k xs ++ unnamed k ys
unnamed-append k [] ys = refl
unnamed-append k (x ∷ xs) ys = elim (Bool-cases (is_infra k x)) [
  | inl t ↦ rw t (unnamed-append k xs ys)
  | inr f ↦ rw f (ap (λ r. x ∷ r) (unnamed-append k xs ys))
]

append_nil : (xs : List QSchedule) → xs ++ [] ≡ xs
append_nil [] = refl
append_nil (x ∷ xs) = ap (λ t. x ∷ t) (append_nil xs)

count-unnamed : (k : Infra) (rows : List QSchedule) → count k (unnamed k rows) ≡ 0
count-unnamed k [] = refl
count-unnamed k (r ∷ rest) = elim (Bool-cases (is_infra k r)) [
  | inl t ↦ rw t (count-unnamed k rest)
  | inr f ↦ rw f (rw f (count-unnamed k rest))
]

unnamed_twice : (k : Infra) (rows : List QSchedule) → unnamed k (unnamed k rows) ≡ unnamed k rows
unnamed_twice k [] = refl
unnamed_twice k (r ∷ rest) = elim (Bool-cases (is_infra k r)) [
  | inl t ↦ rw t (unnamed_twice k rest)
  | inr f ↦ rw f (rw f (ap (λ t. r ∷ t) (unnamed_twice k rest)))
]

count-create :
    (k : Infra) (new : NewRow) (table : Table)
    → new.name ≡ infra k
    → count k (create new table).rows ≡ count k table.rows + 1
unfolding create
count-create k new table e =
    count-append k table.rows _ ∙ ap (λ n. count k table.rows + n) (rw (e, ==_refl) refl)

unnamed-create :
    (k : Infra) (new : NewRow) (table : Table)
    → new.name ≡ infra k
    → unnamed k (create new table).rows ≡ unnamed k table.rows
unfolding create
unnamed-create k new table e =
    unnamed-append k table.rows _ ∙ rw (e, ==_refl) (append_nil (unnamed k table.rows))

-- After an infrastructure row is ensured it exists: once if it was missing, and then the call says
-- that it made it; otherwise the table is as before. The rows of other names stay. Here the new row bears the name.
pub ensure-count :
    (k : Infra) (new : NewRow) (table : Table)
    → new.name ≡ infra k
    → let after = ensure k new table in
      (count k after.0.rows ≡ (if any (is_infra k) table.rows then count k table.rows else 1))
      × (after.1 ≡ not (any (is_infra k) table.rows))
      × (unnamed k after.0.rows ≡ unnamed k table.rows)
unfolding ensure
ensure-count k new table e = elim (Bool-cases (any (is_infra k) table.rows)) [
  | inl there ↦ rw there (refl, refl, refl)
  | inr missing ↦ rw missing (
    count-create k new table e ∙ ap (λ n. n + 1) (count-any k table.rows missing),
    refl,
    unnamed-create k new table e,
  )
]

pub backup_next_run-daily :
    (s : BackupSettings)
    → s.s3_backup_schedule ≡ daily
    → backup_next_run s ≡ daily_candidate s.now s.s3_backup_time
unfolding backup_next_run daily_candidate
backup_next_run-daily s mode = rw mode refl

-- The next run of a weekly backup is the candidate that the weekly mode of schedules takes for its
-- weekday and time, for a valid time and weekday, though the two are computed differently.
pub backup_next_run-weekly :
    (s : BackupSettings)
    → s.s3_backup_schedule ≡ weekly
    → Clocked s.s3_backup_time
    → s.s3_backup_day < 7
    → backup_next_run s ≡ weekly_candidate s.now s.s3_backup_day s.s3_backup_time
unfolding backup_next_run weekly_candidate
backup_next_run-weekly s mode c d = rw mode (ground arith)

-- a backup is due: enabled, on a schedule, and with storage to write to
abbrev pub backup_due : BackupSettings → Bool
backup_due s =
    s.s3_backup_enabled
    && s.s3_ready
    && elim s.s3_backup_schedule [ daily ↦ true | weekly ↦ true | _ ↦ false ]

mode_cases : (b : BackupSchedule) → (b ≡ disabled) ⊎ (b ≡ daily) ⊎ (b ≡ weekly)
mode_cases disabled = inl refl
mode_cases daily = inr (inl refl)
mode_cases weekly = inr (inr refl)

abbrev cleared : Table → Table
cleared table = record table { rows = unnamed scheduled_backup table.rows }

made :
    (s : BackupSettings) (trigger : Trigger) (table : Table)
    → count scheduled_backup (create (backup_row s trigger) (cleared table)).rows ≡ 1
unfolding backup_row
made s trigger table =
    count-create scheduled_backup (backup_row s trigger) (cleared table) refl
    ∙ ap (λ n. n + 1) (count-unnamed scheduled_backup table.rows)

kept :
    (s : BackupSettings) (trigger : Trigger) (table : Table)
    → unnamed scheduled_backup (create (backup_row s trigger) (cleared table)).rows
      ≡ unnamed scheduled_backup table.rows
unfolding backup_row
kept s trigger table =
    unnamed-create scheduled_backup (backup_row s trigger) (cleared table) refl
    ∙ unnamed_twice scheduled_backup table.rows

-- After a synchronisation of the backup there is one backup row if a backup is due and none
-- otherwise, which is what it returns, and the rows of other names are as before.
pub sync_backup_schedule-count :
    (s : BackupSettings) (table : Table)
    → let after = sync_backup_schedule s table in
      (after.1 ≡ backup_due s)
      × (count scheduled_backup after.0.rows ≡ (if backup_due s then 1 else 0))
      × (unnamed scheduled_backup after.0.rows ≡ unnamed scheduled_backup table.rows)
unfolding sync_backup_schedule backup_row
sync_backup_schedule-count s table =
    let none_left = count-unnamed scheduled_backup table.rows in
    let same = unnamed_twice scheduled_backup table.rows in
    elim (Bool-cases s.s3_backup_enabled) [
      | inr off ↦ rw off (refl, none_left, same)
      | inl on ↦ elim (Bool-cases s.s3_ready) [
        | inr unready ↦ elim (mode_cases s.s3_backup_schedule) [
          | inl d ↦ rw (on, d, unready) (refl, none_left, same)
          | inr (inl d) ↦ rw (on, d, unready) (refl, none_left, same)
          | inr (inr d) ↦ rw (on, d, unready) (refl, none_left, same)
        ]
        | inl ready ↦ elim (mode_cases s.s3_backup_schedule) [
          | inl d ↦ rw (on, d, ready) (refl, none_left, same)
          | inr (inl d) ↦ rw (on, d, ready) (refl, made s every_day table, kept s every_day table)
          | inr (inr d) ↦ rw (on, d, ready) (refl, made s _ table, kept s _ table)
        ]
      ]
    ]
