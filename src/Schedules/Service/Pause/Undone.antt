-- ===== src/Schedules/Service/Pause/Undone.antt =====
-- A pause undoes what a synchronisation did to the table, and spares the rows of others.
use text.Mathlib.Text.{starts_with}
use py_runner.Prelude.{
  ◌||◌, ℕ, ◌≡◌, ◌⊎◌, refl, ap, ◌∙◌, Bool, true, false, Bool-cases, inl, inr, Option, none, some,
  List, [], ◌∷◌, ◌++◌, map, All, member,
}
use py_runner.Schedules.Model.{
  Time, RunMode, manual, interval, daily, weekly, monthly, cron, yearly, ScriptSchedule, Name,
  infra, script_name, foreign, Trigger, QSchedule,
}
use py_runner.Schedules.NextRun.{next_yearly_occurrence}
use py_runner.Schedules.Service.{
  yearly_row, cron_rows, Clock, NewRow, is_empty, utc_triggers, create_interval_schedule,
  create_daily_schedules, create_weekly_schedules, create_monthly_schedules, create_cron_schedule,
  create_yearly_schedule, create_for_mode, sync_schedule,
}
use py_runner.Schedules.Service.Sync.{numbered, is_off, wanted, others, sync_schedule-rows}
use py_runner.Schedules.Service.Pause.{System, is_script_row, is_script_name, pause_all_schedules}
use py_runner.Schedules.Service.Pause.Effects.{append_nil, not_script}
use py_runner.Vectors.Slices.{Option-cases}

-- rows to create that have the name of a script
abbrev Named : List NewRow → Type 0
Named news = All (λ n. is_script_name n.name ≡ true) news

map-Named :
    (f : Time → NewRow)
    → ((t : Time) → is_script_name (f t).name ≡ true)
    → (times : List Time) → Named (map f times)
map-Named f h [] = tt
map-Named f h (t ∷ rest) = (h t, map-Named f h rest)

daily-Named :
    (clock : Clock) (schedule : ScriptSchedule) → Named (create_daily_schedules clock schedule)
unfolding create_daily_schedules
daily-Named clock schedule = map-Named _ (λ t. refl) schedule.daily_times

weekly-Named :
    (clock : Clock) (schedule : ScriptSchedule) → Named (create_weekly_schedules clock schedule)
unfolding create_weekly_schedules
weekly-Named clock schedule =
    elim (Bool-cases (is_empty schedule.weekly_days || is_empty schedule.weekly_times)) [
      | inl t ↦ rw t tt
      | inr f ↦ rw f (map-Named _ (λ t. refl) schedule.weekly_times)
    ]

monthly-Named :
    (clock : Clock) (schedule : ScriptSchedule) → Named (create_monthly_schedules clock schedule)
unfolding create_monthly_schedules
monthly-Named clock schedule =
    elim (Bool-cases (is_empty schedule.monthly_days || is_empty schedule.monthly_times)) [
      | inl t ↦ rw t tt
      | inr f ↦ rw f (map-Named _ (λ t. refl) schedule.monthly_times)
    ]

cron_rows-Named :
    (clock : Clock) (schedule : ScriptSchedule) (index : ℕ) (triggers : List Trigger)
    → Named (cron_rows clock schedule index triggers)
cron_rows-Named clock schedule index [] = tt
cron_rows-Named clock schedule index (t ∷ rest) = (refl, cron_rows-Named clock schedule _ rest)

cron-Named :
    (clock : Clock) (schedule : ScriptSchedule) → Named (create_cron_schedule clock schedule)
unfolding create_cron_schedule
cron-Named clock schedule = elim (Option-cases schedule.cron_expression) [
  | inl e ↦ rw e tt
  | inr (text, e) ↦ rw e (cron_rows-Named clock schedule 0 (utc_triggers clock text))
]

yearly_row-Named :
    (clock : Clock) (schedule : ScriptSchedule) (found : Option ℕ)
    → Named (elim found [
      | none ↦ []
      | some local ↦ yearly_row clock schedule (clock.to_utc local) ∷ []
    ])
yearly_row-Named clock schedule none = tt
yearly_row-Named clock schedule (some local) = (refl, tt)

yearly-Named :
    (clock : Clock) (schedule : ScriptSchedule) → Named (create_yearly_schedule clock schedule)
unfolding create_yearly_schedule
yearly-Named clock schedule =
    yearly_row-Named clock schedule (next_yearly_occurrence schedule clock.now)

interval-Named :
    (clock : Clock) (schedule : ScriptSchedule) → Named (create_interval_schedule clock schedule)
unfolding create_interval_schedule
interval-Named clock schedule = (refl, tt)

mode-Named :
    (clock : Clock) (schedule : ScriptSchedule) (mode : RunMode)
    → Named (elim mode [
      | manual ↦ []
      | interval ↦ create_interval_schedule clock schedule
      | daily ↦ create_daily_schedules clock schedule
      | weekly ↦ create_weekly_schedules clock schedule
      | monthly ↦ create_monthly_schedules clock schedule
      | cron ↦ create_cron_schedule clock schedule
      | yearly ↦ create_yearly_schedule clock schedule
    ])
mode-Named clock schedule manual = tt
mode-Named clock schedule interval = interval-Named clock schedule
mode-Named clock schedule daily = daily-Named clock schedule
mode-Named clock schedule weekly = weekly-Named clock schedule
mode-Named clock schedule monthly = monthly-Named clock schedule
mode-Named clock schedule cron = cron-Named clock schedule
mode-Named clock schedule yearly = yearly-Named clock schedule

create_for_mode-Named :
    (clock : Clock) (schedule : ScriptSchedule) → Named (create_for_mode clock schedule)
unfolding create_for_mode
create_for_mode-Named clock schedule = mode-Named clock schedule schedule.run_mode

wanted-Named :
    (clock : Clock) (paused : Bool) (schedule : ScriptSchedule)
    → Named (wanted clock paused schedule)
wanted-Named clock paused schedule = elim (Bool-cases (is_off schedule)) [
  | inl off ↦ rw off tt
  | inr on ↦ elim (Bool-cases paused) [
    | inl stopped ↦ rw (on, stopped) tt
    | inr going ↦ rw (on, going) (create_for_mode-Named clock schedule)
  ]
]

numbered-gone : (n : ℕ) (news : List NewRow) → Named news → not_script (numbered n news) ≡ []
numbered-gone n [] named = refl
numbered-gone n (new ∷ rest) named = rw named.0 (numbered-gone _ rest named.1)

not_script-append :
    (xs ys : List QSchedule) → not_script (xs ++ ys) ≡ not_script xs ++ not_script ys
not_script-append [] ys = refl
not_script-append (x ∷ xs) ys = elim (Bool-cases (is_script_row x)) [
  | inl t ↦ rw t (not_script-append xs ys)
  | inr f ↦ rw f (ap (λ t. x ∷ t) (not_script-append xs ys))
]

-- the ids that a schedule holds are those of rows with a script's name
abbrev pub OwnsScripts : ScriptSchedule → List QSchedule → Type 0
OwnsScripts schedule rows =
    All (λ r. member r.id schedule.q_schedule_ids ≡ true → is_script_name r.name ≡ true) rows

not_script-others :
    (schedule : ScriptSchedule) (rows : List QSchedule)
    → OwnsScripts schedule rows
    → not_script (others schedule rows) ≡ not_script rows
not_script-others schedule [] owns = refl
not_script-others schedule (r ∷ rest) owns =
    let more = not_script-others schedule rest owns.1 in
    elim (Bool-cases (member r.id schedule.q_schedule_ids)) [
      | inl held ↦ rw (held, owns.0 held) more
      | inr free ↦ elim (Bool-cases (is_script_row r)) [
        | inl t ↦ rw (free, t) more
        | inr f ↦ rw (free, f) (ap (λ t. r ∷ t) more)
      ]
    ]

abbrev pub In : QSchedule → List QSchedule → Type 0
In r [] = ⊥
In r (x ∷ xs) = (r ≡ x) ⊎ In r xs

-- a row of PyRun's infrastructure, or of another program
abbrev pub IsSpared : Name → Type 0
IsSpared (infra k) = Unit
IsSpared (script_name script ending) = ⊥
IsSpared (foreign name) = starts_with name "pyrunner-" ≡ false

spared_name : (name : Name) → IsSpared name → is_script_name name ≡ false
spared_name (infra k) h = refl
spared_name (script_name script ending) h = absurd h
spared_name (foreign name) h = h

spared-In :
    (r : QSchedule) (rows : List QSchedule) → IsSpared r.name → In r rows → In r (not_script rows)
spared-In r [] h m = m
spared-In r (x ∷ xs) h (inl e) =
    let stays : is_script_name x.name ≡ false = rw (← e) (spared_name r.name h) in rw stays (inl e)
spared-In r (x ∷ xs) h (inr i) = elim (Bool-cases (is_script_row x)) [
  | inl t ↦ rw t (spared-In r xs h i)
  | inr f ↦ rw f (inr (spared-In r xs h i))
]

-- A pause leaves the same rows whether or not a schedule was synchronised before it, whatever its mode,
-- if the ids that the schedule held are of rows named for scripts. The rows that it leaves include each
-- infrastructure row and each row without the prefix "pyrunner-".
pub pause_all_schedules-undoes :
    (clock : Clock) (paused : Bool) (schedule : ScriptSchedule) (user : Option ℕ) (now : ℕ)
    (s : System)
    → OwnsScripts schedule s.table.rows
    → let synced = (sync_schedule clock paused schedule s.table).0 in
      let left = (pause_all_schedules user now s).0.table.rows in
      ((pause_all_schedules user now (record s { table = synced })).0.table.rows ≡ left)
      × ((r : QSchedule) → IsSpared r.name → In r s.table.rows → In r left)
unfolding pause_all_schedules
pause_all_schedules-undoes clock paused schedule user now s owns =
    let made = numbered s.table.next_id (wanted clock paused schedule) in
    (
      ap not_script (sync_schedule-rows clock paused schedule s.table).0
          ∙ not_script-append (others schedule s.table.rows) made
          ∙ rw
              (
                not_script-others schedule s.table.rows owns,
                numbered-gone s.table.next_id (wanted clock paused schedule)
                    (wanted-Named clock paused schedule),
              )
              (append_nil (not_script s.table.rows)),
      λ r h m. spared-In r s.table.rows h m,
    )
