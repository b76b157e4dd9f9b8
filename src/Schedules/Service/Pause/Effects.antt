-- ===== src/Schedules/Service/Pause/Effects.antt =====
-- A pause stops the scripts and nothing else; a resume brings the infrastructure back.
use py_runner.Prelude.{
  ℕ, ◌+◌, ◌≡◌, refl, ap, ◌∙◌, true, false, not, Bool-cases, inl, inr, Option, none, List, [], ◌∷◌,
  ◌++◌, map, any, All, keep, length, member, arith,
}
use py_runner.Schedules.Model.{ScriptSchedule, QSchedule, Infra}
use py_runner.Schedules.Service.{Clock, without_rows, sync_schedule}
use py_runner.Schedules.Service.Sync.{sync_schedule-rows, is_off, wanted}
use py_runner.Schedules.Service.Infrastructure.Ensure.{count}
use py_runner.Schedules.Service.Pause.{System, is_script_row, pause_all_schedules}

-- rows that do not belong to a script
abbrev pub not_script : List QSchedule → List QSchedule
not_script rows = keep (λ r. not (is_script_row r)) rows

no_script_left : (rows : List QSchedule) → any is_script_row (not_script rows) ≡ false
no_script_left [] = refl
no_script_left (r ∷ rest) = elim (Bool-cases (is_script_row r)) [
  | inl t ↦ rw t (no_script_left rest)
  | inr f ↦ rw f (rw f (no_script_left rest))
]

infra_counts : (k : Infra) (rows : List QSchedule) → count k (not_script rows) ≡ count k rows
infra_counts k [] = refl
infra_counts k (r ∷ rest) = ground (arith, infra_counts k rest)

partition_length :
    (rows : List QSchedule)
    → length (not_script rows) + length (keep is_script_row rows) ≡ length rows
partition_length [] = refl
partition_length (r ∷ rest) = ground (arith, partition_length rest)

cleared-All :
    (schedules : List ScriptSchedule)
    → All (λ s. (s.q_schedule_ids ≡ []) × (s.next_run ≡ none)) (map without_rows schedules)
cleared-All [] = tt
cleared-All (s ∷ rest) = ((refl, refl), cleared-All rest)

-- A pause leaves no row of a script, and every infrastructure row; it counts what it deletes, no
-- schedule holds ids or a next run any more, and schedules are paused.
pub pause_all_schedules-effect :
    (user : Option ℕ) (now : ℕ) (s : System)
    → let (after, deleted) = pause_all_schedules user now s in
      (any is_script_row after.table.rows ≡ false)
      × ((k : Infra) → count k after.table.rows ≡ count k s.table.rows)
      × (length after.table.rows + deleted ≡ length s.table.rows)
      × All (λ x. (x.q_schedule_ids ≡ []) × (x.next_run ≡ none)) after.schedules
      × (after.schedules_paused ≡ true)
unfolding pause_all_schedules
pause_all_schedules-effect user now s = (
  no_script_left s.table.rows,
  λ k. infra_counts k s.table.rows,
  partition_length s.table.rows,
  cleared-All s.schedules,
  refl,
)

keep_all : (rows : List QSchedule) → keep (λ r. not (member r.id [])) rows ≡ rows
keep_all [] = refl
keep_all (r ∷ rest) = ap (λ t. r ∷ t) (keep_all rest)

pub append_nil : (xs : List QSchedule) → xs ++ [] ≡ xs
append_nil [] = refl
append_nil (x ∷ xs) = ap (λ t. x ∷ t) (append_nil xs)

nothing_wanted : (clock : Clock) (schedule : ScriptSchedule) → wanted clock true schedule ≡ []
nothing_wanted clock schedule = elim (Bool-cases (is_off schedule)) [
  | inl t ↦ rw t refl
  | inr f ↦ rw f refl
]

-- While schedules are paused, synchronising a schedule that the pause cleared, even with other
-- settings than it had, leaves the table of the paused system as it is.
pub pause_all_schedules-holds :
    (user : Option ℕ) (now : ℕ) (s : System) (clock : Clock) (schedule : ScriptSchedule)
    → schedule.q_schedule_ids ≡ []
    → let after = (pause_all_schedules user now s).0 in
      (sync_schedule clock after.schedules_paused schedule after.table).0.rows ≡ after.table.rows
unfolding pause_all_schedules
pause_all_schedules-holds user now s clock schedule cleared =
    let table = (pause_all_schedules user now s).0.table in
    (sync_schedule-rows clock true schedule table).0
    ∙ rw (cleared, nothing_wanted clock schedule, keep_all) (append_nil table.rows)
