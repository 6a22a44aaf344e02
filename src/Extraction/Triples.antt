-- ===== src/Extraction/Triples.antt =====
-- What a step of the worker ensures where it returns, with a rule for each way of composing steps.
use gubbi.Prelude.{Bool, true, false, List, if◌then◌else◌, ◌≡◌, refl}
use gubbi.Journal.Store.{Conversation, Error, Result, ok, err, in_failed_transaction}
use gubbi.Extraction.Worker.{
  State, Work, continue, ◌>>=◌, restore, finish, savepoint, commit, scoped,
}
use gubbi.Extraction.Keeps.{WorkKeeps, stored}

module _ {A : Type 0} where
  abbrev pub After : (A → State → Type 0) → Result A × State → Type 0
  After post (ok a, s) = post a s
  After post (err e, s) = Unit

  abbrev pub Triple : (State → Type 0) → Work A → (A → State → Type 0) → Type 0
  Triple pre m post = (s : State) → pre s → After post (m s)

  After-kept :
      (P : List Conversation → Type 0) (r : Result A) (s : State)
      → P (stored s)
      → After (λ _ t. P (stored t)) (r, s)
  After-kept P (ok a) s h = h
  After-kept P (err e) s h = tt

  pub triple_keeps :
      (P : List Conversation → Type 0) (m : Work A)
      → WorkKeeps P m
      → Triple (λ s. P (stored s)) m (λ _ s. P (stored s))
  triple_keeps P m k s h = After-kept P (m s).0 (m s).1 (k s h)

  After-any : (r : Result A) (s : State) → After (λ _ _. Unit {0}) (r, s)
  After-any (ok a) s = tt
  After-any (err e) s = tt

  pub triple_any : (pre : State → Type 0) (m : Work A) → Triple pre m (λ _ _. Unit {0})
  triple_any pre m s h = After-any (m s).0 (m s).1

  After-if :
      (post : A → State → Type 0) (b : Bool) (e : Error) (a : A) (back after : State)
      → post a after
      → after.journal.aborted ≡ b
      → After
          (λ a s. post a s × (s.journal.aborted ≡ false))
          (if◌then◌else◌ {A = Result A × State} b (err e, back) (ok a, after))
  After-if post true e a back after h same = tt
  After-if post false e a back after h same = (h, same)

  After-savepoint :
      (post : A → State → Type 0) (before : State) (r : Result A) (after : State)
      → After post (r, after)
      → After (λ a s. post a s × (s.journal.aborted ≡ false)) (finish true before r after)
  After-savepoint post before (ok a) after h =
      After-if post after.journal.aborted in_failed_transaction a (restore before after) after h
        refl
  After-savepoint post before (err e) after h = tt

  -- Where a savepoint returns, its connection is not aborted.
  pub triple_savepoint :
      (pre : State → Type 0) (m : Work A) (post : A → State → Type 0)
      → Triple pre m post
      → Triple pre (savepoint m) (λ a s. post a s × (s.journal.aborted ≡ false))
  triple_savepoint pre m post k s h = After-savepoint post s (m s).0 (m s).1 (k s h)

  After-unaborted :
      (post : A → State → Type 0) (b : Bool) (a : A) (back after : State)
      → post a after
      → after.journal.aborted ≡ false
      → after.journal.aborted ≡ b
      → After post (if◌then◌else◌ {A = Result A × State} b (ok a, back) (ok a, after))
  After-unaborted post true a back after h healthy same = cc
  After-unaborted post false a back after h healthy same = h

  After-finish :
      (post : A → State → Type 0) (before : State) (r : Result A) (after : State)
      → After (λ a s. post a s × (s.journal.aborted ≡ false)) (r, after)
      → After post (finish false before r after)
  After-finish post before (ok a) after (h, healthy) =
      After-unaborted post after.journal.aborted a (restore before after) after h healthy refl
  After-finish post before (err e) after h = tt

  After-commit :
      (post : A → State → Type 0) (commits : Bool) (before : State) (r : Result A) (after : State)
      → After post (r, after)
      → After post (commit commits before (r, after))
  After-commit post true before r after h = h
  After-commit post false before (ok a) after h = tt
  After-commit post false before (err e) after h = tt

  -- A connection's transaction that ends without a failed statement is committed.
  pub triple_scoped :
      (pre : State → Type 0) (connects commits : Bool) (m : Work A) (post : A → State → Type 0)
      → Triple pre m (λ a s. post a s × (s.journal.aborted ≡ false))
      → Triple pre (scoped connects commits m) post
  triple_scoped pre false commits m post k s h = tt
  triple_scoped pre true commits m post k s h =
      After-commit post commits s (finish false s (m s).0 (m s).1).0
        (finish false s (m s).0 (m s).1).1 (After-finish post s (m s).0 (m s).1 (k s h))

  After-value :
      (Q : A → Type 0) (b : Bool) (a : A) (back after : State)
      → Q a
      → After (λ a _. Q a) (if◌then◌else◌ {A = Result A × State} b (ok a, back) (ok a, after))
  After-value Q true a back after h = h
  After-value Q false a back after h = h

  After-finish_value :
      (Q : A → Type 0) (before : State) (r : Result A) (after : State)
      → After (λ a _. Q a) (r, after)
      → After (λ a _. Q a) (finish false before r after)
  After-finish_value Q before (ok a) after h =
      After-value Q after.journal.aborted a (restore before after) after h
  After-finish_value Q before (err e) after h = tt

  -- What is said of the answer alone survives the end of the transaction.
  pub triple_scoped_value :
      (pre : State → Type 0) (connects commits : Bool) (m : Work A) (Q : A → Type 0)
      → Triple pre m (λ a _. Q a)
      → Triple pre (scoped connects commits m) (λ a _. Q a)
  triple_scoped_value pre false commits m Q k s h = tt
  triple_scoped_value pre true commits m Q k s h =
      After-commit (λ a _. Q a) commits s (finish false s (m s).0 (m s).1).0
        (finish false s (m s).0 (m s).1).1 (After-finish_value Q s (m s).0 (m s).1 (k s h))

module _ {A B : Type 0} where
  After-continue :
      (mid : A → State → Type 0) (post : B → State → Type 0) (f : A → Work B) (r : Result A)
      (s : State)
      → ((a : A) → Triple (mid a) (f a) post)
      → After mid (r, s)
      → After post (continue r f s)
  After-continue mid post f (ok a) s k h = k a s h
  After-continue mid post f (err e) s k h = tt

  pub triple_bind :
      (pre : State → Type 0) (mid : A → State → Type 0) (post : B → State → Type 0) (m : Work A)
      (f : A → Work B)
      → Triple pre m mid
      → ((a : A) → Triple (mid a) (f a) post)
      → Triple pre (m >>= f) post
  triple_bind pre mid post m f k l s h = After-continue mid post f (m s).0 (m s).1 l (k s h)
