-- ===== src/Tasks/Scheduled/Guards.antt =====
-- When a scheduled task starts a run, and what it then leaves.
use py_runner.Prelude.{
  ℕ, ◌+◌, ◌≡◌, refl, &&-true, ◌∙◌, sym, ap, subst, Bool, true, false, not, ◌&&◌, ◌||◌, Bool-cases,
  inl, inr, ◌⊎◌, Option, none, some, [], ◌∷◌, ◌++◌, ==→eq, if◌then◌else◌, String, arith,
}
use py_runner.Runs.Model.{pending}
use py_runner.Schedules.Model.{ScriptSchedule}
use py_runner.Schedules.Service.{Clock, is_empty}
use py_runner.Tasks.Scheduled.{
  Script, RunRow, World, Response, started, can_run, find_script, find_schedule, is_yearly,
  same_number, versions, stamp_library_versions, queue_script_run, new_run, start_run, if_active,
  if_can_run, if_unpaused, execute_scheduled_run, execute_yearly_scheduled_run, if_due, if_found,
}

-- the script may run on its schedule
abbrev pub Allowed : World → Script → ScriptSchedule → Type 0
Allowed w script schedule =
    (w.schedules_paused ≡ false)
    × (script.is_enabled ≡ true)
    × (script.is_archived ≡ false)
    × (script.schedule ≡ some schedule)
    × (schedule.is_active ≡ true)

-- the one new run and its task
abbrev pub Started : World → Script → String → World → Type 0
Started w script task_id after =
    (row : RunRow) × (after.runs ≡ w.runs ++ (row ∷ []))
    × (after.tasks
        ≡ w.tasks ++ ((record { run = row.run.key; timeout = script.timeout_seconds + 60 }) ∷ []))
    × (row.run.key ≡ w.next_run_key)
    × (row.run.status ≡ pending)
    × (row.run.task_id ≡ task_id)
    × (row.run.workspace ≡ script.workspace)
    × (row.code_snapshot ≡ script.code)
    × (row.library_versions
        ≡ (if is_empty (versions script.libraries) then none else some (versions script.libraries)))

abbrev get_or {ℓ} : {A : Type ℓ} → A → Option A → A
get_or d none = d
get_or d (some x) = x

start_run-Started :
    (clock : Clock) (task_id : String) (w : World) (script : Script) (schedule : ScriptSchedule)
    → ((start_run clock task_id w script schedule).1 ≡ started w.next_run_key)
      × Started w script task_id (start_run clock task_id w script schedule).0
unfolding start_run queue_script_run stamp_library_versions new_run
start_run-Started clock task_id w script schedule =
    elim (Bool-cases (is_empty (versions script.libraries))) [
      | inl t ↦ rw t (refl, (_, refl, refl, refl, refl, refl, refl, refl, refl))
      | inr f ↦ rw f (refl, (_, refl, refl, refl, refl, refl, refl, refl, refl))
    ]

abbrev pub is_started : Response → Bool
is_started response = elim response [ started _ ↦ true | _ ↦ false ]

-- what a guarded call does: start the script if it may run, or nothing
abbrev pub Guarded : World → Option Script → String → World × Response → Type 0
Guarded w o task_id result =
    ((result.0 ≡ w)
      × (is_started result.1 ≡ false)
      × ((script : Script) (schedule : ScriptSchedule)
          → o ≡ some script
          → Allowed w script schedule
          → ⊥))
    ⊎ ((script : Script) × (schedule : ScriptSchedule) × (o ≡ some script)
        × Allowed w script schedule
        × (result.1 ≡ started w.next_run_key)
        × Started w script task_id result.0)

some_eq {ℓ} : {A : Type ℓ} (x y : A) → some x ≡ some y → x ≡ y
some_eq x y e = ap (λ o. get_or x o) e

able_parts : (s : Script) → can_run s ≡ true → (s.is_enabled ≡ true) × (s.is_archived ≡ false)
able_parts s h = (ground arith, ground arith)

blocked_script :
    (script s : Script)
    → script ≡ s
    → s.is_enabled ≡ true
    → s.is_archived ≡ false
    → can_run script ≡ false
    → ⊥
blocked_script script s same on current blocked =
    let h = subst (λ x. can_run x ≡ false) same blocked in ground (arith, h)

unscheduled :
    (script s : Script) (other : ScriptSchedule)
    → script ≡ s
    → script.schedule ≡ none
    → s.schedule ≡ some other
    → ⊥
unscheduled script s other same missing has =
    let h = subst (λ x. x.schedule ≡ none) same missing in ground (arith, h, has)

inactive :
    (script s : Script) (schedule other : ScriptSchedule)
    → script.schedule ≡ some schedule
    → script ≡ s
    → s.schedule ≡ some other
    → other.is_active ≡ true
    → schedule.is_active ≡ false
    → ⊥
inactive script s schedule other has same has_other on off =
    let h = subst (λ x. x.schedule ≡ some schedule) same has in
    let equal = some_eq schedule other (sym h ∙ has_other) in
    ground (arith, ap (λ x. x.is_active) equal, on, off)

if_active-Guarded :
    (clock : Clock) (task_id : String) (w : World) (script : Script) (schedule : ScriptSchedule)
    (active : Bool)
    → w.schedules_paused ≡ false
    → can_run script ≡ true
    → script.schedule ≡ some schedule
    → schedule.is_active ≡ active
    → Guarded w (some script) task_id (if_active clock task_id w script schedule active)
unfolding if_active
if_active-Guarded clock task_id w script schedule true going able has on =
    let (answer, made) = start_run-Started clock task_id w script schedule in
    let (enabled, current) = able_parts script able in
    inr (script, schedule, refl, (going, enabled, current, has, on), answer, made)
if_active-Guarded clock task_id w script schedule false going able has off = inl (
  refl,
  refl,
  λ s other same allowed.
      inactive script s schedule other has (some_eq script s same) allowed.3 allowed.4 off,
)

if_can_run-Guarded :
    (clock : Clock) (task_id : String) (w : World) (script : Script) (able : Bool)
    (o : Option ScriptSchedule)
    → w.schedules_paused ≡ false
    → can_run script ≡ able
    → script.schedule ≡ o
    → Guarded w (some script) task_id (if_can_run clock task_id w script able o)
unfolding if_can_run
if_can_run-Guarded clock task_id w script false o going blocked has = inl (
  refl,
  ground arith,
  λ s other same allowed.
      blocked_script script s (some_eq script s same) allowed.1 allowed.2 blocked,
)
if_can_run-Guarded clock task_id w script true none going able has = inl (
  refl,
  refl,
  λ s other same allowed. unscheduled script s other (some_eq script s same) has allowed.3,
)
if_can_run-Guarded clock task_id w script true (some schedule) going able has =
    if_active-Guarded clock task_id w script schedule schedule.is_active going able has refl

if_unpaused-Guarded :
    (clock : Clock) (task_id : String) (w : World) (stopped : Bool) (o : Option Script)
    → w.schedules_paused ≡ stopped
    → Guarded w o task_id (if_unpaused clock task_id w stopped o)
unfolding if_unpaused
if_unpaused-Guarded clock task_id w true o e =
    inl (refl, refl, λ script schedule found allowed. absurd (ground (arith, e, allowed.0)))
if_unpaused-Guarded clock task_id w false none e =
    inl (refl, refl, λ script schedule found allowed. absurd (ground (arith, found)))
if_unpaused-Guarded clock task_id w false (some script) e =
    if_can_run-Guarded clock task_id w script (can_run script) script.schedule e refl refl

-- A scheduled task starts its script exactly when the script exists, is enabled and not archived,
-- its schedule is active and schedules are not paused. Then it appends one pending run with the
-- script's code, workspace and pinned library versions, and one task for that run with a minute
-- more than the script's timeout, and answers with the run's key; otherwise nothing changes.
pub execute_scheduled_run-Guarded :
    (clock : Clock) (task_id : String) (script_id : ℕ) (w : World)
    → Guarded w
        (find_script script_id w.scripts)
        task_id
        (execute_scheduled_run clock task_id script_id w)
unfolding execute_scheduled_run
execute_scheduled_run-Guarded clock task_id script_id w =
    if_unpaused-Guarded clock task_id w w.schedules_paused (find_script script_id w.scripts) refl

-- the call runs on the schedule's local date, and starts its script as a scheduled task does
abbrev pub Due : Clock → String → World → Option ScriptSchedule → World × Response → Type 0
Due clock task_id w o result =
    (schedule : ScriptSchedule) × (o ≡ some schedule)
    × (schedule.is_active ≡ true)
    × (is_yearly schedule ≡ true)
    × (schedule.yearly_month ≡ some clock.now.month)
    × (schedule.yearly_day ≡ some clock.now.day)
    × (result ≡ execute_scheduled_run clock task_id schedule.script w)

same_number-eq : (o : Option ℕ) (n : ℕ) → same_number o n ≡ true → o ≡ some n
same_number-eq none n h = absurd (ground (arith, h))
same_number-eq (some m) n h = ap (λ k. some k) (==→eq m n h)

if_due-date :
    (clock : Clock) (task_id : String) (w : World) (schedule : ScriptSchedule) (off today : Bool)
    → (not schedule.is_active || not (is_yearly schedule)) ≡ off
    → (same_number schedule.yearly_month clock.now.month
        && same_number schedule.yearly_day clock.now.day)
      ≡ today
    → ((((if_due clock task_id w schedule off today).0 ≡ w)
          × (is_started (if_due clock task_id w schedule off today).1 ≡ false))
        ⊎ Due clock task_id w (some schedule) (if_due clock task_id w schedule off today))
unfolding if_due
if_due-date clock task_id w schedule true today e f = inl (refl, refl)
if_due-date clock task_id w schedule false false e f = inl (refl, refl)
if_due-date clock task_id w schedule false true e f =
    let (month, day) =
      &&-true (same_number schedule.yearly_month clock.now.month)
        (same_number schedule.yearly_day clock.now.day) f in
    inr (
      schedule,
      refl,
      ground (arith, e),
      ground (arith, e),
      same_number-eq schedule.yearly_month clock.now.month month,
      same_number-eq schedule.yearly_day clock.now.day day,
      refl,
    )

if_found-date :
    (clock : Clock) (task_id : String) (w : World) (o : Option ScriptSchedule)
    → (((if_found clock task_id w o).0 ≡ w) × (is_started (if_found clock task_id w o).1 ≡ false))
      ⊎ Due clock task_id w o (if_found clock task_id w o)
unfolding if_found
if_found-date clock task_id w none = inl (refl, refl)
if_found-date clock task_id w (some schedule) = if_due-date clock task_id w schedule _ _ refl refl

-- A yearly task changes nothing unless its schedule is found, active and yearly and the local date
-- is the configured one; then it does what the scheduled task of its script does.
pub execute_yearly_scheduled_run-date :
    (clock : Clock) (task_id : String) (schedule_id : ℕ) (w : World)
    → let result = execute_yearly_scheduled_run clock task_id schedule_id w in
      ((result.0 ≡ w) × (is_started result.1 ≡ false))
      ⊎ Due clock task_id w (find_schedule schedule_id w.scripts) result
unfolding execute_yearly_scheduled_run
execute_yearly_scheduled_run-date clock task_id schedule_id w =
    if_found-date clock task_id w (find_schedule schedule_id w.scripts)
