-- ===== src/Schedules/Service/Pause/Infra.antt =====
-- A resume leaves every infrastructure row in django-q's table.
use py_runner.Prelude.{
  ℕ, ◌≡◌, refl, sym, ap, ◌∙◌, Bool, true, false, ◌||◌, Bool-cases, inl, inr, List, [], ◌∷◌, ◌++◌,
  map, any, ◌==◌, ==_refl, if◌then◌else◌, arith,
}
use py_runner.Schedules.Model.{
  QSchedule, Infra, infra, worker_heartbeat, update_check, schedule_resync, scheduled_backup,
  auto_cleanup, infra_index, ScriptSchedule,
}
use py_runner.Schedules.Service.{Clock, NewRow, Table, create}
use py_runner.Schedules.Service.Infrastructure.{
  is_infra, ensure, ensure_heartbeat_schedule, ensure_update_check_schedule, ensure_resync_schedule,
  sync_backup_schedule, BackupSettings, enable_auto_cleanup, update_cleanup,
}
use py_runner.Schedules.Service.Infrastructure.Ensure.{
  count, unnamed, backup_due, sync_backup_schedule-count,
}
use py_runner.Schedules.Service.Pause.{
  System, resume_all_schedules, sync_all, ensure_infrastructure,
}

abbrev pub has : Infra → Table → Bool
has k table = any (is_infra k) table.rows

any-append :
    (p : QSchedule → Bool) (xs ys : List QSchedule) → any p (xs ++ ys) ≡ (any p xs || any p ys)
any-append p [] ys = refl
any-append p (x ∷ xs) ys = ground (arith, any-append p xs ys)

create-has :
    (k : Infra) (new : NewRow) (table : Table)
    → new.name ≡ infra k
    → has k (create new table) ≡ true
unfolding create
create-has k new table e = any-append (is_infra k) table.rows _ ∙ rw (e, ==_refl) (ground arith)

create-keeps :
    (j : Infra) (new : NewRow) (table : Table)
    → has j table ≡ true
    → has j (create new table) ≡ true
unfolding create
create-keeps j new table h = any-append (is_infra j) table.rows _ ∙ rw h refl

ensure-has :
    (k : Infra) (new : NewRow) (table : Table)
    → new.name ≡ infra k
    → has k (ensure k new table).0 ≡ true
unfolding ensure
ensure-has k new table e = elim (Bool-cases (has k table)) [
  | inl there ↦ rw there there
  | inr missing ↦ rw missing (create-has k new table e)
]

ensure-keeps :
    (j k : Infra) (new : NewRow) (table : Table)
    → has j table ≡ true
    → has j (ensure k new table).0 ≡ true
unfolding ensure
ensure-keeps j k new table h = elim (Bool-cases (has k table)) [
  | inl there ↦ rw there h
  | inr missing ↦ rw missing (create-keeps j new table h)
]

other_name :
    (j k : Infra) (r : QSchedule)
    → (infra_index j == infra_index k) ≡ false
    → is_infra j r ≡ true
    → is_infra k r ≡ false
other_name j k r ne h = ground arith

unnamed-has :
    (j k : Infra) (rows : List QSchedule)
    → (infra_index j == infra_index k) ≡ false
    → any (is_infra j) (unnamed k rows) ≡ any (is_infra j) rows
unnamed-has j k [] ne = refl
unnamed-has j k (r ∷ rest) ne = elim (Bool-cases (is_infra k r)) [
  | inr f ↦ rw f (rw (unnamed-has j k rest ne) refl)
  | inl t ↦ elim (Bool-cases (is_infra j r)) [
    | inl h ↦ absurd (ground (arith, other_name j k r ne h))
    | inr g ↦ rw (t, g) (unnamed-has j k rest ne)
  ]
]

backup-keeps :
    (j : Infra) (s : BackupSettings) (table : Table)
    → (infra_index j == infra_index scheduled_backup) ≡ false
    → has j table ≡ true
    → has j (sync_backup_schedule s table).0 ≡ true
backup-keeps j s table ne h =
    let (answer, counts, same) = sync_backup_schedule-count s table in
    sym (unnamed-has j scheduled_backup (sync_backup_schedule s table).0.rows ne)
    ∙ ap (any (is_infra j)) same
    ∙ unnamed-has j scheduled_backup table.rows ne
    ∙ h

update-keeps :
    (j : Infra) (next_run : ℕ) (rows : List QSchedule)
    → any (is_infra j) (map (update_cleanup next_run) rows) ≡ any (is_infra j) rows
update-keeps j next_run [] = refl
update-keeps j next_run (r ∷ rest) = elim (Bool-cases (is_infra auto_cleanup r)) [
  | inl t ↦ rw t (rw (update-keeps j next_run rest) refl)
  | inr f ↦ rw f (rw (update-keeps j next_run rest) refl)
]

cleanup-keeps :
    (j : Infra) (now : ℕ) (table : Table)
    → has j table ≡ true
    → has j (enable_auto_cleanup now table) ≡ true
unfolding enable_auto_cleanup
cleanup-keeps j now table h = elim (Bool-cases (has auto_cleanup table)) [
  | inl there ↦ rw there (update-keeps j _ table.rows ∙ h)
  | inr missing ↦ rw missing (create-keeps j _ table h)
]

cleanup-has : (now : ℕ) (table : Table) → has auto_cleanup (enable_auto_cleanup now table) ≡ true
unfolding enable_auto_cleanup
cleanup-has now table = elim (Bool-cases (has auto_cleanup table)) [
  | inl there ↦ rw there (update-keeps auto_cleanup _ table.rows ∙ there)
  | inr missing ↦ rw missing (create-has auto_cleanup _ table refl)
]

counted-has : (k : Infra) (rows : List QSchedule) → count k rows ≡ 1 → any (is_infra k) rows ≡ true
counted-has k [] c = absurd (omega (arith, c))
counted-has k (r ∷ rest) c = elim (Bool-cases (is_infra k r)) [
  | inl t ↦ rw t refl
  | inr f ↦ rw f (counted-has k rest (ground (arith, c, f)))
]

cleanup_if_keeps :
    (on : Bool) (j : Infra) (now : ℕ) (table : Table)
    → has j table ≡ true
    → has j (if on then enable_auto_cleanup now table else table) ≡ true
cleanup_if_keeps true j now table h = cleanup-keeps j now table h
cleanup_if_keeps false j now table h = h

-- After a resume the heartbeat, the update check and the daily resynchronisation are in django-q's
-- table, the backup too if one is due, and the cleanup if it is enabled, whatever was lost before.
pub resume_all_schedules-infrastructure :
    (clocks : ScriptSchedule → Clock) (backup : BackupSettings) (auto_cleanup_enabled : Bool)
    (now : ℕ) (s : System)
    → let table = (resume_all_schedules clocks backup auto_cleanup_enabled now s).0.table in
      (has worker_heartbeat table ≡ true)
      × (has update_check table ≡ true)
      × (has schedule_resync table ≡ true)
      × (backup_due backup ≡ true → has scheduled_backup table ≡ true)
      × (auto_cleanup_enabled ≡ true → has auto_cleanup table ≡ true)
unfolding resume_all_schedules ensure_infrastructure ensure_heartbeat_schedule
    ensure_update_check_schedule ensure_resync_schedule
resume_all_schedules-infrastructure clocks backup auto_cleanup_enabled now s =
    let t0 = (sync_all clocks s.schedules s.table).0 in
    let t1 = (ensure_heartbeat_schedule now t0).0 in
    let t2 = (ensure_update_check_schedule now t1).0 in
    let t3 = (ensure_resync_schedule now t2).0 in
    let t4 = (sync_backup_schedule backup t3).0 in
    (
      cleanup_if_keeps auto_cleanup_enabled worker_heartbeat now t4 (
          backup-keeps worker_heartbeat backup t3 refl (
            ensure-keeps worker_heartbeat schedule_resync _ t2 (
              ensure-keeps worker_heartbeat update_check _ t1
                (ensure-has worker_heartbeat _ t0 refl)))),
      cleanup_if_keeps auto_cleanup_enabled update_check now t4 (
          backup-keeps update_check backup t3 refl
            (ensure-keeps update_check schedule_resync _ t2 (ensure-has update_check _ t1 refl))),
      cleanup_if_keeps auto_cleanup_enabled schedule_resync now t4
          (backup-keeps schedule_resync backup t3 refl (ensure-has schedule_resync _ t2 refl)),
      λ due. cleanup_if_keeps auto_cleanup_enabled scheduled_backup now t4 (
          counted-has scheduled_backup t4.rows
            ((sync_backup_schedule-count backup t3).1 ∙ rw due refl)),
      λ on. rw on (cleanup-has now t4),
    )
