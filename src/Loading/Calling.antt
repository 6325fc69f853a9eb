-- ===== src/Loading/Calling.antt =====
-- How often the job of src/sessions/jobs/loadtorrents.cpp calls its caller back.
use porla.Base.{
  ℕ, ◌+◌, ◌≡◌, refl, ap, true, false, Bool-cases, inl, inr, List, [], ◌∷◌, ◌++◌, Option, none, some,
  if◌then◌else◌, leb, ltb, arith, if_both,
}
use porla.Loading.{
  Chunk, read, thrown, Effect, reconciled, updates_posted, resumed, called_back, published, Fault,
  no_fault, reconcile_throws, publish_throws, post_throws, Result, publish_loaded, reconcile, Turn,
  LoadTorrents, new_job, complete, finish, after_chunk, run_counted, run_job, stopped,
  load_max_chunk_errors, JobCall, run_call, stop_call, perform, perform_all,
}
use porla.Loading.Finishing.{callbacks}

-- The calls that a job can still make.
abbrev pub kept : LoadTorrents → ℕ
kept job = if job.callback then 1 else 0

callbacks-append : (es fs : List Effect) → callbacks (es ++ fs) ≡ callbacks es + callbacks fs
callbacks-append [] fs = omega arith
callbacks-append (called_back ∷ es) fs = omega (arith, callbacks-append es fs)
callbacks-append (reconciled ∷ es) fs = callbacks-append es fs
callbacks-append (updates_posted ∷ es) fs = callbacks-append es fs
callbacks-append (resumed ∷ es) fs = callbacks-append es fs
callbacks-append (published n failed ∷ es) fs = callbacks-append es fs

-- Nothing is kept or lost.
Balances : LoadTorrents → LoadTorrents × List Effect → Type 0
Balances job r = callbacks r.1 + kept r.0 ≡ kept job

complete-Balances : (job : LoadTorrents) → Balances job (complete job)
unfolding Balances complete
complete-Balances job = elim (Bool-cases job.callback) [ inl h ↦ rw h refl | inr h ↦ rw h refl ]

-- A run keeps the balance.
RunBalances : LoadTorrents → LoadTorrents × List Effect × Result → Type 0
RunBalances job r = callbacks r.1 + kept r.0 ≡ kept job

done-Balances :
    (before : List Effect) (job : LoadTorrents)
    → callbacks before ≡ 0
    → RunBalances job (publish_loaded no_fault before job)
unfolding RunBalances publish_loaded complete
done-Balances before job q = elim (Bool-cases job.callback) [
  | inl h ↦ rw h (
      omega (
        arith,
        q,
        callbacks-append before
            (published job.loaded job.failed ∷ updates_posted ∷ resumed ∷ called_back ∷ []),
      ))
  | inr h ↦ rw h (
      omega (
        arith,
        q,
        callbacks-append before (published job.loaded job.failed ∷ updates_posted ∷ resumed ∷ []),
      ))
]

publish_loaded-Balances :
    (fault : Fault) (before : List Effect) (job : LoadTorrents)
    → callbacks before ≡ 0
    → RunBalances job (publish_loaded fault before job)
unfolding RunBalances publish_loaded
publish_loaded-Balances no_fault before job q =
    unfold RunBalances publish_loaded in done-Balances before job q
publish_loaded-Balances reconcile_throws before job q =
    unfold RunBalances publish_loaded in done-Balances before job q
publish_loaded-Balances publish_throws before job q = omega (arith, q)
publish_loaded-Balances post_throws before job q =
    omega (arith, q, callbacks-append before (published job.loaded job.failed ∷ []))

reconcile-Balances : (fault : Fault) (job : LoadTorrents) → RunBalances job (reconcile fault job)
unfolding reconcile
reconcile-Balances no_fault job = publish_loaded-Balances no_fault _ job refl
reconcile-Balances reconcile_throws job = unfold RunBalances in omega arith
reconcile-Balances publish_throws job = publish_loaded-Balances publish_throws _ job refl
reconcile-Balances post_throws job = publish_loaded-Balances post_throws _ job refl

finish-Balances : (fault : Fault) (job : LoadTorrents) → RunBalances job (finish fault job)
unfolding finish
finish-Balances fault job =
    if_both (RunBalances job) (ltb 0 job.loaded) (reconcile-Balances fault job)
      (publish_loaded-Balances fault [] job refl)

after_chunk-Balances :
    (chunk : Chunk) (fault : Fault) (job : LoadTorrents)
    → RunBalances job (after_chunk chunk fault job)
unfolding after_chunk
after_chunk-Balances (read added true) fault job = unfold RunBalances in omega arith
after_chunk-Balances (read added false) fault job =
    unfold RunBalances in
    finish-Balances fault (record job { loaded = job.loaded + added; errors = 0 })
after_chunk-Balances (thrown added) fault job =
    if_both (RunBalances job) (leb (job.errors + 1) load_max_chunk_errors)
      (unfold RunBalances in omega arith)
      (unfold RunBalances in
        finish-Balances fault
          (record job { loaded = job.loaded + added; errors = job.errors + 1; failed = true }))

run_counted-Balances :
    (count stored : Option ℕ) (turn : Turn) (job : LoadTorrents)
    → RunBalances job (run_counted count stored turn job)
unfolding run_counted
run_counted-Balances (some n) stored turn job = after_chunk-Balances turn.chunk turn.fault job
run_counted-Balances none (some n) turn job =
    unfold RunBalances in after_chunk-Balances turn.chunk turn.fault (record job { count = some n })
run_counted-Balances none none turn job = unfold RunBalances in omega arith

perform-Balances : (call : JobCall) (job : LoadTorrents) → Balances job (perform call job)
unfolding perform run_job stopped
perform-Balances (run_call turn) job =
    unfold Balances RunBalances in run_counted-Balances job.count turn.stored turn job
perform-Balances stop_call job = complete-Balances job

perform_all-Balances :
    (calls : List JobCall) (job : LoadTorrents) → Balances job (perform_all calls job)
unfolding perform_all Balances
perform_all-Balances [] job = omega arith
perform_all-Balances (call ∷ calls) job = omega (
  arith,
  perform-Balances call job,
  perform_all-Balances calls (perform call job).0,
  callbacks-append (perform call job).1 (perform_all calls (perform call job).0).1,
)

perform_all-stop :
    (calls : List JobCall) (job : LoadTorrents)
    → ((perform_all (calls ++ stop_call ∷ []) job).0).callback ≡ false
unfolding perform_all perform stopped complete
perform_all-stop [] job = refl
perform_all-stop (call ∷ calls) job = perform_all-stop calls (perform call job).0

-- A job that is stopped in the end has called its caller back exactly once, whatever it was called for
-- before: also if it had ended, or if a run had thrown.
pub callbacks-perform_all :
    (calls : List JobCall) → callbacks (perform_all (calls ++ stop_call ∷ []) new_job).1 ≡ 1
callbacks-perform_all calls =
    let all = calls ++ stop_call ∷ [] in
    let balance : callbacks (perform_all all new_job).1 + kept (perform_all all new_job).0 ≡ 1 =
      unfold Balances in perform_all-Balances all new_job in
    let no_more : kept (perform_all all new_job).0 ≡ 0 =
      ap (λ b. if b then 1 else 0) (perform_all-stop calls new_job) in
    omega (arith, balance, no_more)
