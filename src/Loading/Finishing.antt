-- ===== src/Loading/Finishing.antt =====
-- How `Finish` of src/sessions/jobs/loadtorrents.cpp ends, and with which effects.
use porla.Base.{ℕ, ◌+◌, ◌≡◌, refl, true, inl, inr, ◌⊎◌, List, [], ◌∷◌, ◌++◌, ltb, if_both}
use porla.Loading.{
  Effect, reconciled, resumed, called_back, Result, done, raised, LoadTorrents, complete, Fault,
  no_fault, reconcile_throws, publish_throws, post_throws, publish_loaded, reconcile, finish,
}

abbrev pub callbacks : List Effect → ℕ
callbacks [] = 0
callbacks (called_back ∷ es) = 1 + callbacks es
callbacks (_ ∷ es) = callbacks es

abbrev pub resumes : List Effect → ℕ
resumes [] = 0
resumes (resumed ∷ es) = 1 + resumes es
resumes (_ ∷ es) = resumes es

-- The job is done: its caller has been called back once, and its scheduler goes on, once.
pub record IsDone (r : LoadTorrents × List Effect × Result) : Type 0 where
  pub result : r.2 ≡ done
  pub called : callbacks r.1 ≡ 1
  pub goes_on : resumes r.1 ≡ 1

-- An exception has left the job: nobody is called back, the callback stays, and the scheduler is not
-- resumed.
pub record IsRaised (r : LoadTorrents × List Effect × Result) : Type 0 where
  pub result : r.2 ≡ raised
  pub uncalled : callbacks r.1 ≡ 0
  pub suspended : resumes r.1 ≡ 0
  pub keeps : (r.0).callback ≡ true

-- The effects before `Publish` count for nothing.
record IsQuiet (before : List Effect) : Type 0 where
  uncalled : (es : List Effect) → callbacks (before ++ es) ≡ callbacks es
  suspended : (es : List Effect) → resumes (before ++ es) ≡ resumes es

none-IsQuiet : IsQuiet []
none-IsQuiet = record { uncalled = λ es. refl; suspended = λ es. refl }

reconciled-IsQuiet : IsQuiet (reconciled ∷ [])
reconciled-IsQuiet = record { uncalled = λ es. refl; suspended = λ es. refl }

-- How `Finish` ends.
abbrev pub Ends : Fault → LoadTorrents × List Effect × Result → Type 0
Ends fault r = IsDone r ⊎ (IsRaised r × (fault ≡ no_fault → ⊥))

completed-IsDone :
    (before : List Effect) (job : LoadTorrents)
    → IsQuiet before
    → job.callback ≡ true
    → IsDone (publish_loaded no_fault before job)
unfolding publish_loaded complete
completed-IsDone before job q c =
    rw c (record { result = refl; called = q.uncalled _; goes_on = q.suspended _ })

publish_loaded-Ends :
    (fault : Fault) (before : List Effect) (job : LoadTorrents)
    → IsQuiet before
    → callbacks before ≡ 0
    → resumes before ≡ 0
    → job.callback ≡ true
    → Ends fault (publish_loaded fault before job)
unfolding publish_loaded
publish_loaded-Ends no_fault before job q u v c =
    inl (unfold publish_loaded in completed-IsDone before job q c)
publish_loaded-Ends reconcile_throws before job q u v c =
    inl (unfold publish_loaded in completed-IsDone before job q c)
publish_loaded-Ends publish_throws before job q u v c =
    inr (record { result = refl; uncalled = u; suspended = v; keeps = c }, λ e. cc)
publish_loaded-Ends post_throws before job q u v c = inr (
  record { result = refl; uncalled = q.uncalled _; suspended = q.suspended _; keeps = c },
  λ e. cc,
)

reconcile-Ends :
    (fault : Fault) (job : LoadTorrents) → job.callback ≡ true → Ends fault (reconcile fault job)
unfolding reconcile
reconcile-Ends no_fault job c = publish_loaded-Ends no_fault _ job reconciled-IsQuiet refl refl c
reconcile-Ends reconcile_throws job c =
    inr (record { result = refl; uncalled = refl; suspended = refl; keeps = c }, λ e. cc)
reconcile-Ends publish_throws job c =
    publish_loaded-Ends publish_throws _ job reconciled-IsQuiet refl refl c
reconcile-Ends post_throws job c =
    publish_loaded-Ends post_throws _ job reconciled-IsQuiet refl refl c

pub finish-Ends :
    (fault : Fault) (job : LoadTorrents) → job.callback ≡ true → Ends fault (finish fault job)
unfolding finish
finish-Ends fault job c =
    if_both (Ends fault) (ltb 0 job.loaded) (reconcile-Ends fault job c)
      (publish_loaded-Ends fault [] job none-IsQuiet refl refl c)
