-- ===== src/Schedules/Service/Sync.antt =====
-- What a synchronisation leaves in django-q's table.
use py_runner.Prelude.{
  ℕ, suc, ◌+◌, ◌≤◌, ◌<◌, ◌≡◌, ◌∙◌, refl, sym, ap, subst, Bool, true, false, not, ◌||◌, Bool-cases,
  inl, inr, none, List, [], ◌∷◌, ◌++◌, map, length, keep, All, member, if◌then◌else◌, arith,
}
use py_runner.Schedules.Model.{ScriptSchedule, QSchedule}
use py_runner.Schedules.NextRun.{calculate_next_run}
use py_runner.Schedules.Service.{
  Clock, NewRow, Table, create, create_all, create_for_mode, is_manual, delete_q_schedules,
  sync_schedule,
}

-- rows numbered from the next free id
abbrev pub numbered : ℕ → List NewRow → List QSchedule
numbered n [] = []
numbered n (new ∷ rest) =
    (record {
      id = n;
      name = new.name;
      func = new.func;
      trigger = new.trigger;
      next_run = new.next_run;
    })
    ∷ numbered (suc n) rest

abbrev pub ids_of : List QSchedule → List ℕ
ids_of rows = map (λ r. r.id) rows

append_assoc : (xs ys zs : List QSchedule) → (xs ++ ys) ++ zs ≡ xs ++ (ys ++ zs)
append_assoc [] ys zs = refl
append_assoc (x ∷ xs) ys zs = ap (λ t. x ∷ t) (append_assoc xs ys zs)

append_nil : (xs : List QSchedule) → xs ++ [] ≡ xs
append_nil [] = refl
append_nil (x ∷ xs) = ap (λ t. x ∷ t) (append_nil xs)

create_all-rows :
    (news : List NewRow) (table : Table)
    → ((create_all news table).0.rows ≡ table.rows ++ numbered table.next_id news)
      × ((create_all news table).0.next_id ≡ table.next_id + length news)
      × ((create_all news table).1 ≡ ids_of (numbered table.next_id news))
unfolding create_all create
create_all-rows [] table = (sym (append_nil table.rows), omega arith, refl)
create_all-rows (new ∷ rest) table =
    let (rows, next, ids) = create_all-rows rest (create new table) in
    (
      rows ∙ append_assoc table.rows _ (numbered (suc table.next_id) rest),
      omega (arith, next),
      ap (λ t. table.next_id ∷ t) ids,
    )

abbrev pub is_off : ScriptSchedule → Bool
is_off schedule = not schedule.is_active || is_manual schedule

-- what a synchronisation creates: nothing for a schedule that is off, or when all are paused
abbrev pub wanted : Clock → Bool → ScriptSchedule → List NewRow
wanted clock paused schedule =
    if is_off schedule then [] else if paused then [] else create_for_mode clock schedule

abbrev pub others : ScriptSchedule → List QSchedule → List QSchedule
others schedule rows = keep (λ r. not (member r.id schedule.q_schedule_ids)) rows

-- A synchronisation keeps the rows whose ids the schedule did not hold, in order, and appends the
-- rows that its mode asks for, or none when the schedule is off or schedules are paused; the
-- schedule then holds the ids of just these, and its next run, if it has any rows to ask for.
pub sync_schedule-rows :
    (clock : Clock) (paused : Bool) (schedule : ScriptSchedule) (table : Table)
    → let after = sync_schedule clock paused schedule table in
      let made = numbered table.next_id (wanted clock paused schedule) in
      (after.0.rows ≡ others schedule table.rows ++ made)
      × (after.0.next_id ≡ table.next_id + length (wanted clock paused schedule))
      × (after.1.q_schedule_ids ≡ ids_of made)
      × (after.1.next_run ≡ (
          if is_off schedule
          then none
          else if paused
          then none
          else calculate_next_run clock.croniter clock.to_utc clock.utc_now clock.now schedule))
unfolding sync_schedule delete_q_schedules
sync_schedule-rows clock paused schedule table =
    let nothing = sym (append_nil (others schedule table.rows)) in
    elim (Bool-cases (is_off schedule)) [
      | inl off ↦ rw off (nothing, omega arith, refl, refl)
      | inr on ↦ elim (Bool-cases paused) [
        | inl stopped ↦ rw (on, stopped) (nothing, omega arith, refl, refl)
        | inr going ↦
            let (rows, next, ids) =
              create_all-rows (create_for_mode clock schedule)
                (delete_q_schedules schedule table) in
            rw (on, going) (rows, next, ids, refl)
      ]
    ]

-- ids that were given out are below the next one
abbrev pub Fresh : Table → Type 0
Fresh table = All (λ r. r.id < table.next_id) table.rows

Fresh-keep :
    (n : ℕ) (p : QSchedule → Bool) (rows : List QSchedule)
    → All (λ r. r.id < n) rows
    → All (λ r. r.id < n) (keep p rows)
Fresh-keep n p [] a = a
Fresh-keep n p (r ∷ rest) a = elim (Bool-cases (p r)) [
  | inl kept ↦ rw kept (a.0, Fresh-keep n p rest a.1)
  | inr dropped ↦ rw dropped (Fresh-keep n p rest a.1)
]

Fresh-append :
    (n m : ℕ) (rows more : List QSchedule)
    → n ≤ m
    → All (λ r. r.id < n) rows
    → All (λ r. r.id < m) more
    → All (λ r. r.id < m) (rows ++ more)
Fresh-append n m [] more le a b = b
Fresh-append n m (r ∷ rest) more le a b = (omega (arith, a.0), Fresh-append n m rest more le a.1 b)

numbered-Fresh : (n : ℕ) (news : List NewRow) → All (λ r. r.id < n + length news) (numbered n news)
numbered-Fresh n [] = tt
numbered-Fresh n (new ∷ rest) = (
  omega arith,
  subst (λ k. All (λ r. r.id < k) (numbered (suc n) rest)) (omega arith)
      (numbered-Fresh (suc n) rest),
)

-- A synchronisation gives out fresh ids: those of all rows stay below the next one.
pub sync_schedule-Fresh :
    (clock : Clock) (paused : Bool) (schedule : ScriptSchedule) (table : Table)
    → Fresh table
    → Fresh (sync_schedule clock paused schedule table).0
sync_schedule-Fresh clock paused schedule table fresh =
    let (rows, next, ids, runs) = sync_schedule-rows clock paused schedule table in
    let news = wanted clock paused schedule in
    rw (rows, next)
      (Fresh-append table.next_id (table.next_id + length news) (others schedule table.rows)
        (numbered table.next_id news) (omega arith)
        (Fresh-keep table.next_id (λ r. not (member r.id schedule.q_schedule_ids)) table.rows fresh)
        (numbered-Fresh table.next_id news))

below_made : (n k : ℕ) (news : List NewRow) → k < n → member k (ids_of (numbered n news)) ≡ false
below_made n k [] lt = refl
below_made n k (new ∷ rest) lt = ground (arith, below_made (suc n) k rest (omega arith))

keep_below :
    (n : ℕ) (news : List NewRow) (rows : List QSchedule)
    → All (λ r. r.id < n) rows
    → keep (λ r. not (member r.id (ids_of (numbered n news)))) rows ≡ rows
keep_below n news [] a = refl
keep_below n news (r ∷ rest) a =
    ground (arith, below_made n r.id news a.0, keep_below n news rest a.1)

keep-append :
    (p : QSchedule → Bool) (xs ys : List QSchedule) → keep p (xs ++ ys) ≡ keep p xs ++ keep p ys
keep-append p [] ys = refl
keep-append p (x ∷ xs) ys = ground (arith, keep-append p xs ys)

keep_none :
    (ids : List ℕ) (rows : List QSchedule)
    → All (λ r. member r.id ids ≡ true) rows
    → keep (λ r. not (member r.id ids)) rows ≡ []
keep_none ids [] a = refl
keep_none ids (r ∷ rest) a = rw a.0 (keep_none ids rest a.1)

All-weaken :
    (ids : List ℕ) (k : ℕ) (rows : List QSchedule)
    → All (λ r. member r.id ids ≡ true) rows
    → All (λ r. member r.id (k ∷ ids) ≡ true) rows
All-weaken ids k [] a = a
All-weaken ids k (r ∷ rest) a = (ground (arith, a.0), All-weaken ids k rest a.1)

own_ids : (rows : List QSchedule) → All (λ r. member r.id (ids_of rows) ≡ true) rows
own_ids [] = tt
own_ids (r ∷ rest) = (ground arith, All-weaken (ids_of rest) r.id rest (own_ids rest))

-- A later synchronisation of the same schedule replaces the rows of the earlier one and no others:
-- nothing that the first made is left, whatever the clock, the pause and the settings were.
pub sync_schedule-replaces :
    (clock later : Clock) (paused paused_later : Bool) (schedule edited : ScriptSchedule)
    (table : Table)
    → Fresh table
    → edited.q_schedule_ids ≡ (sync_schedule clock paused schedule table).1.q_schedule_ids
    → let first = (sync_schedule clock paused schedule table).0 in
      (sync_schedule later paused_later edited first).0.rows
      ≡ others schedule table.rows ++ numbered first.next_id (wanted later paused_later edited)
sync_schedule-replaces clock later paused paused_later schedule edited table fresh same =
    let (rows, next, ids, rest) = sync_schedule-rows clock paused schedule table in
    let first = (sync_schedule clock paused schedule table).0 in
    let news = wanted clock paused schedule in
    let made = numbered table.next_id news in
    let kept = others schedule table.rows in
    let cleared : others edited first.rows ≡ kept =
      rw (same, ids, rows, keep-append)
        (rw
          (
            keep_below table.next_id news kept (
                Fresh-keep table.next_id (λ r. not (member r.id schedule.q_schedule_ids)) table.rows
                  fresh),
            keep_none (ids_of made) made (own_ids made),
          )
          (append_nil kept)) in
    (sync_schedule-rows later paused_later edited first).0
    ∙ ap (λ t. t ++ numbered first.next_id (wanted later paused_later edited)) cleared
