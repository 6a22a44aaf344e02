-- ===== src/Extraction/Spares.antt =====
-- Steps of a run that leave the budget alone.
use gubbi.Prelude.{ℕ, ◌≡◌, refl, ◌∙◌, String, Bool, true, false, Option, none, some, arith}
use gubbi.Pg.{Conn}
use gubbi.Journal.Store.{Audit, Error, Result, ok, err, Exec}
use gubbi.Extraction.Worker.{State, Work, Context, on_jobs, continue, ◌>>=◌, finish, commit, scoped}
use gubbi.Extraction.Persist.{audit_if, mark_job_failed}
use gubbi.Extraction.Extract.{Run, fail_job}

-- Steps that leave the budget alone.
abbrev Spares : {A : Type 0} → Work A → Type 0
Spares m = (s : State) → (m s).1.settlements ≡ s.settlements

module _ {A : Type 0} where
  spares_finish :
      (r : Result A) (before after : State)
      → (finish false before r after).1.settlements ≡ after.settlements
  spares_finish (ok a) before after = ground arith
  spares_finish (err e) before after = refl

  spares_commit :
      (commits : Bool) (before : State) (r : Result A) (after : State)
      → (commit commits before (r, after)).1.settlements ≡ after.settlements
  spares_commit true before r after = refl
  spares_commit false before (ok a) after = refl
  spares_commit false before (err e) after = refl

  Spares-scoped :
      (connects commits : Bool) (m : Work A) → Spares m → Spares (scoped connects commits m)
  Spares-scoped false commits m k s = refl
  Spares-scoped true commits m k s =
      spares_commit commits s (finish false s (m s).0 (m s).1).0 (finish false s (m s).0 (m s).1).1
      ∙ spares_finish (m s).0 s (m s).1
      ∙ k s

module _ {A B : Type 0} where
  Spares-continue :
      (r : Result A) (f : A → Work B) (s : State)
      → ((a : A) → Spares (f a))
      → (continue r f s).1.settlements ≡ s.settlements
  Spares-continue (ok a) f s k = k a s
  Spares-continue (err e) f s k = refl

  Spares-bind :
      (m : Work A) (f : A → Work B) → Spares m → ((a : A) → Spares (f a)) → Spares (m >>= f)
  Spares-bind m f k l s = Spares-continue (m s).0 f (m s).1 l ∙ k s

module _ (record_audit : Conn → Audit → Exec (Unit {0})) where
  audit_if-Spares : (b : Bool) (conn : Conn) (a : Audit) → Spares (audit_if record_audit b conn a)
  audit_if-Spares true conn a s = refl
  audit_if-Spares false conn a s = refl

  mark_job_failed-Spares :
      (ctx : Context) (user job i : ℕ) (code : String)
      → Spares (mark_job_failed record_audit ctx user job i code)
  unfolding mark_job_failed
  mark_job_failed-Spares ctx user job i code =
      Spares-scoped (ctx.connects _) (ctx.commits _) _
        (Spares-bind (on_jobs _) _ (λ s. refl) (λ b. audit_if-Spares b ctx.conn _))

  pub fail_job-Spares :
      (job : Option ℕ) (run : Run) (e : Error) → Spares (fail_job record_audit job run e)
  fail_job-Spares none run e = λ s. refl
  fail_job-Spares (some job) run e =
      mark_job_failed-Spares run.ctx run.user job run.conversation_id _
