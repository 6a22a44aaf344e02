-- ===== src/Jobs/History.antt =====
-- What a row goes through: every operation of the repository and the sweep as a step, the statuses
-- that a step may join, and what no step changes.
use gubbi.Prelude.{
  ℕ, String, ◌≡◌, refl, Bool, true, Option, none, some, List, [], ◌∷◌, arith, ◌==◌, nat_eq,
  string_eq, ◌≢◌, if◌then◌else◌, inl, inr, Bool-cases,
}
use gubbi.Pg.{Conn, World, pure, ◌>>=◌, state-bind-pure}
use gubbi.Jobs.Table.{
  Job, Status, pending, running, completed, failed, is_active, unique_active, may_start,
}
use gubbi.Jobs.Repository.{
  create_pending, update_rows, update_where, mark_running, update_progress, mark_completed,
  mark_failed, start_row, progress_row, complete_row, fail_row, targets,
}
use gubbi.Jobs.Sweep.{sweep_round, stale_pending, stale_running}

-- The operations that write, each with the connection that it is called on.
pub data Op : Type 0 where
  create : Conn → (ident user conversation : ℕ) → (source : String) → (period_start : ℕ) → Op
  start : Conn → ℕ → Op
  progress : Conn → ℕ → (topics entries : Option ℕ) → Op
  complete : Conn → ℕ → (topics entries cents : ℕ) → Op
  fail : Conn → ℕ → String → Op
  clean : Conn → (minutes : ℕ) → Op

unfoldable pub apply : Op → World Job → World Job
unfolding create_pending mark_running update_progress mark_completed mark_failed sweep_round
apply (create c i u v s p) w = (create_pending c i u v s p w).1
apply (start c i) w = (mark_running c i w).1
apply (progress c i t n) w = (update_progress c i t n w).1
apply (complete c i t n z) w = (mark_completed c i t n z w).1
apply (fail c i e) w = (mark_failed c i e w).1
apply (clean c m) w = (sweep_round c m w).1

unfoldable pub apply_all : List Op → World Job → World Job
apply_all [] w = w
apply_all (op ∷ ops) w = apply_all ops (apply op w)

-- The row with an identifier.
unfoldable pub find_job : ℕ → List Job → Option Job
find_job i [] = none
find_job i (k ∷ js) = let rest = find_job i js in if k.ident == i then some k else rest

-- The statuses that one step may join.
pub data Next : Status → Status → Type 0 where
  stay : (s : Status) → Next s s
  begin : Next pending running
  revive : Next failed running
  finish : {s : Status} → is_active s ≡ true → Next s completed
  abandon : {s : Status} → is_active s ≡ true → Next s failed

-- The row `j` of a table is some row `k` of another that a step may have made of it.
abbrev pub Kept : Job → Option Job → Type 0
Kept j none = ⊥
Kept j (some k) = Next j.status k.status × (j.status ≡ completed → k ≡ j)

pub find_job-update_rows :
    (i : ℕ) (test : Job → Bool) (f : Job → Job) (js : List Job) (j : Job)
    → ((k : Job) → (f k).ident ≡ k.ident)
    → find_job i js ≡ some j
    → find_job i (update_rows test f js) ≡ some (if test j then f j else j)
unfolding find_job update_rows
find_job-update_rows i test f [] j same h = cc
find_job-update_rows i test f (k ∷ js) j same h =
    ground (arith, same k, find_job-update_rows i test f js j same)

-- A rewrite that `test` guards: the statuses that it joins, and that it passes no completed row.
abbrev pub Guarded : (Job → Bool) → (Job → Job) → Type 0
Guarded test f = (k : Job) → test k ≡ true → Next k.status (f k).status × (k.status ≢ completed)

pub Kept-rewrite :
    (test : Job → Bool) (f : Job → Job) (j : Job)
    → Guarded test f
    → Kept j (some (if test j then f j else j))
Kept-rewrite test f j guarded = elim (Bool-cases (test j)) [
  | inl e ↦ rw e ((guarded j e).0, λ done. absurd ((guarded j e).1 done))
  | inr e ↦ rw e (stay j.status, λ _. refl)
]

pub Kept-same : (i : ℕ) (j : Job) (js : List Job) → find_job i js ≡ some j → Kept j (find_job i js)
Kept-same i j js h = rw h (stay j.status, λ _. refl)

Kept-update_rows :
    (i : ℕ) (test : Job → Bool) (f : Job → Job) (js : List Job) (j : Job)
    → ((k : Job) → (f k).ident ≡ k.ident)
    → Guarded test f
    → find_job i js ≡ some j
    → Kept j (find_job i (update_rows test f js))
Kept-update_rows i test f js j same guarded h =
    rw (find_job-update_rows i test f js j same h) (Kept-rewrite test f j guarded)

module _ (i : ℕ) (w : World Job) (j : Job) (found : find_job i w.rows ≡ some j) where
  Kept-update :
      (conn : Conn) (test : Job → Bool) (f : Job → Job)
      → ((k : Job) → (f k).ident ≡ k.ident)
      → Guarded test f
      → Kept j (find_job i (update_where conn test f w).1.rows)
  unfolding update_where
  Kept-update conn test f same guarded = elim (Bool-cases w.aborted) [
    | inl e ↦ rw (e, update_where) (Kept-same i j w.rows found)
    | inr e ↦ elim (Bool-cases (unique_active (update_rows test f w.rows))) [
      | inl u ↦ rw (e, u) (Kept-update_rows i test f w.rows j same guarded found)
      | inr u ↦ rw (e, u) (Kept-same i j w.rows found)
    ]
  ]

  -- The same, with an answer computed from the number of rows.
  pub Kept-update_then :
      {B : Type 0} (conn : Conn) (test : Job → Bool) (f : Job → Job) (g : ℕ → B)
      → ((k : Job) → (f k).ident ≡ k.ident)
      → Guarded test f
      → Kept j (find_job i ((update_where conn test f >>= λ n. pure (g n)) w).1.rows)
  Kept-update_then conn test f g same guarded =
      rw (state-bind-pure (update_where conn test f) g w) (Kept-update conn test f same guarded)

may_start_next : (s : Status) → may_start s ≡ true → Next s running × (s ≢ completed)
may_start_next pending h = (begin, λ e. cc)
may_start_next failed h = (revive, λ e. cc)
may_start_next running h = cc
may_start_next completed h = cc

active-ne-completed : (s : Status) → is_active s ≡ true → s ≢ completed
active-ne-completed s h = λ e. ground arith

module _ (tenant : Option ℕ) (t : ℕ) where
  targets-status :
      (on_status : Status → Bool) (k : Job)
      → targets tenant t on_status k ≡ true
      → on_status k.status ≡ true
  targets-status on_status k h = ground arith

  pub start-Guarded : (now : ℕ) → Guarded (targets tenant t may_start) (start_row now)
  start-Guarded now k h = may_start_next k.status (targets-status may_start k h)

  pub progress-Guarded :
      (topics entries : Option ℕ)
      → Guarded (targets tenant t is_active) (progress_row topics entries)
  progress-Guarded topics entries k h =
      (stay k.status, active-ne-completed k.status (targets-status is_active k h))

  pub complete-Guarded :
      (now topics entries cents : ℕ)
      → Guarded (targets tenant t is_active) (complete_row now topics entries cents)
  complete-Guarded now topics entries cents k h =
      let active = targets-status is_active k h in
      (finish active, active-ne-completed k.status active)

  pub fail-Guarded :
      (now : ℕ) (code : String) → Guarded (targets tenant t is_active) (fail_row now code)
  fail-Guarded now code k h =
      let active = targets-status is_active k h in
      (abandon active, active-ne-completed k.status active)

pub stale_pending-Guarded :
    (now minutes : ℕ) (code : String) → Guarded (stale_pending now minutes) (fail_row now code)
stale_pending-Guarded now minutes code k h =
    let active : is_active k.status ≡ true = ground arith in
    (abandon active, active-ne-completed k.status active)

pub stale_running-Guarded :
    (now secs : ℕ) (code : String) → Guarded (stale_running now secs) (fail_row now code)
stale_running-Guarded now secs code k h =
    let active : is_active k.status ≡ true = ground arith in
    (abandon active, active-ne-completed k.status active)
