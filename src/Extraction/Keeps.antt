-- ===== src/Extraction/Keeps.antt =====
-- Steps of the worker that keep a property of the conversations' table, committed or rolled back.
use gubbi.Prelude.{Bool, true, false, List, if◌then◌else◌}
use gubbi.Pg
use gubbi.Jobs.Table.{Job}
use gubbi.Journal.Store.{Conversation, Result, ok, err, Exec}
use gubbi.Journal.Keeps.{Keeps, conversations_of}
use gubbi.Extraction.Worker.{
  State, Work, pure, of_result, continue, ◌>>=◌, on_journal, on_jobs, finish, savepoint, commit,
  scoped,
}

abbrev pub stored : State → List Conversation
stored s = conversations_of s.journal

module _ (P : List Conversation → Type 0) where
  abbrev pub WorkKeeps : {A : Type 0} → Work A → Type 0
  WorkKeeps m = (s : State) → P (stored s) → P (stored (m s).1)

  module _ {A : Type 0} where
    pub work_pure : (a : A) → WorkKeeps (pure a)
    work_pure a s h = h

    pub work_of_result : (r : Result A) → WorkKeeps (of_result r)
    work_of_result r s h = h

    pub work_on_journal : (m : Exec A) → Keeps P m → WorkKeeps (on_journal m)
    work_on_journal m k s h = k s.journal h

    pub work_on_jobs : (m : Pg.Exec Job A) → WorkKeeps (on_jobs m)
    work_on_jobs m s h = h

    work_if :
        (b : Bool) (x y : Result A × State)
        → P (stored x.1)
        → P (stored y.1)
        → P (stored (if◌then◌else◌ {A = Result A × State} b x y).1)
    work_if true x y h k = h
    work_if false x y h k = k

    pub work_finish :
        (nested : Bool) (before : State) (r : Result A) (after : State)
        → P (stored before)
        → P (stored after)
        → P (stored (finish nested before r after).1)
    work_finish nested before (ok a) after h k = work_if after.journal.aborted _ _ h k
    work_finish nested before (err e) after h k = h

    pub work_savepoint : (m : Work A) → WorkKeeps m → WorkKeeps (savepoint m)
    work_savepoint m k s h = work_finish true s (m s).0 (m s).1 h (k s h)

    work_commit :
        (commits : Bool) (before : State) (r : Result A) (after : State)
        → P (stored before)
        → P (stored after)
        → P (stored (commit commits before (r, after)).1)
    work_commit true before r after h k = k
    work_commit false before (ok a) after h k = h
    work_commit false before (err e) after h k = k

    pub work_scoped :
        (connects commits : Bool) (m : Work A) → WorkKeeps m → WorkKeeps (scoped connects commits m)
    work_scoped false commits m k s h = h
    work_scoped true commits m k s h =
        work_commit commits s (finish false s (m s).0 (m s).1).0 (finish false s (m s).0 (m s).1).1
          h (work_finish false s (m s).0 (m s).1 h (k s h))

  module _ {A B : Type 0} where
    work_continue :
        (r : Result A) (f : A → Work B) (s : State)
        → ((a : A) → WorkKeeps (f a))
        → P (stored s)
        → P (stored (continue r f s).1)
    work_continue (ok a) f s k h = k a s h
    work_continue (err e) f s k h = h

    pub work_bind :
        (m : Work A) (f : A → Work B)
        → WorkKeeps m
        → ((a : A) → WorkKeeps (f a))
        → WorkKeeps (m >>= f)
    work_bind m f k l s h = work_continue (m s).0 f (m s).1 l (k s h)
