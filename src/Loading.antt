-- ===== src/Loading.antt =====
-- src/sessions/jobs/loadtorrents.cpp: the job that adds the stored torrents to a session, in chunks. A chunk's
-- outcome, which `AddTorrentParams::Next` and `Session::Add` give, is an argument, and so is what
-- throws in `Finish`; what the job does to the session, its scheduler and the caller is a list.
pub mod Finishing
pub mod Completing
pub mod Calling
use porla.Base.{
  ℕ, zero, suc, ◌+◌, ◌-◌, ◌*◌, ◌^◌, ◌%◌, min, Bool, true, false, List, [], ◌∷◌, ◌++◌, Option, none,
  some, if◌then◌else◌, leb, ltb,
}

-- How many torrents were added in a chunk; whether there is more to read, or it has thrown.
pub data Chunk : Type 0 where
  read : ℕ → Bool → Chunk
  thrown : ℕ → Chunk

-- The call in `Finish` that throws, if it is reached: `ReconcileTorrents`, `Publish` or
-- `post_torrent_updates`. `Resume` is taken not to throw, and `Complete` catches what the callback throws.
pub data Fault : Type 0 where
  no_fault reconcile_throws publish_throws post_throws : Fault

pub data Effect : Type 0 where
  reconciled updates_posted resumed called_back : Effect
  published : ℕ → Bool → Effect

-- `Again` with its delay in milliseconds, `Done`, and an exception that leaves `Run`.
pub data Result : Type 0 where
  again : ℕ → Result
  done raised : Result

-- `count` is absent where `m_count` is negative; `callback` tells whether there is one.
pub record LoadTorrents : Type 0 where
  pub count : Option ℕ
  pub loaded : ℕ
  pub chunks : ℕ
  pub errors : ℕ
  pub failed : Bool
  pub callback : Bool

abbrev pub load_max_chunk_errors : ℕ
load_max_chunk_errors = 8

abbrev pub load_retry_base_delay : ℕ
load_retry_base_delay = 100

abbrev pub load_retry_max_delay : ℕ
load_retry_max_delay = 5000

-- The job when it is made.
abbrev pub new_job : LoadTorrents
new_job = record {
  count = none;
  loaded = 0;
  chunks = 0;
  errors = 0;
  failed = false;
  callback = true;
}

-- `Complete`.
unfoldable pub complete : LoadTorrents → LoadTorrents × List Effect
complete job = (record job { callback = false }, if job.callback then called_back ∷ [] else [])

-- `Finish` from `Publish` on; an exception leaves it, and the callback stays.
unfoldable pub publish_loaded :
    Fault → List Effect → LoadTorrents → LoadTorrents × List Effect × Result
publish_loaded publish_throws before job = (job, before, raised)
publish_loaded post_throws before job =
    (job, before ++ published job.loaded job.failed ∷ [], raised)
publish_loaded _ before job =
    let (ended, effects) = complete job in
    (ended, before ++ published job.loaded job.failed ∷ updates_posted ∷ resumed ∷ effects, done)

unfoldable pub reconcile : Fault → LoadTorrents → LoadTorrents × List Effect × Result
reconcile reconcile_throws job = (job, [], raised)
reconcile fault job = publish_loaded fault (reconciled ∷ []) job

-- `Finish`, and `Done` if nothing throws.
unfoldable pub finish : Fault → LoadTorrents → LoadTorrents × List Effect × Result
finish fault job = if ltb 0 job.loaded then reconcile fault job else publish_loaded fault [] job

unfoldable pub retry_delay : ℕ → ℕ
retry_delay errors = min load_retry_max_delay (load_retry_base_delay * 2 ^ (errors - 1))

-- What follows a chunk.
unfoldable pub after_chunk : Chunk → Fault → LoadTorrents → LoadTorrents × List Effect × Result
after_chunk (read added true) fault job =
    (record job { loaded = job.loaded + added; chunks = job.chunks + 1; errors = 0 }, [], again 0)
after_chunk (read added false) fault job =
    finish fault (record job { loaded = job.loaded + added; errors = 0 })
after_chunk (thrown added) fault job =
    if leb (job.errors + 1) load_max_chunk_errors
    then (
      record job { loaded = job.loaded + added; errors = job.errors + 1 },
      [],
      again (retry_delay (job.errors + 1)),
    )
    else finish fault
        (record job { loaded = job.loaded + added; errors = job.errors + 1; failed = true })

-- What a run meets: what `Count` returns, or nothing if it throws; the chunk; what throws in `Finish`.
pub record Turn : Type 0 where
  pub stored : Option ℕ
  pub chunk : Chunk
  pub fault : Fault

-- `Run`. `Count` is called until it has returned; it stands outside the `try` block.
unfoldable pub run_counted :
    Option ℕ → Option ℕ → Turn → LoadTorrents → LoadTorrents × List Effect × Result
run_counted (some n) stored turn job = after_chunk turn.chunk turn.fault job
run_counted none (some n) turn job =
    after_chunk turn.chunk turn.fault (record job { count = some n })
run_counted none none turn job = (job, [], raised)

unfoldable pub run_job : Turn → LoadTorrents → LoadTorrents × List Effect × Result
run_job turn job = run_counted job.count turn.stored turn job

-- `Stopped`.
unfoldable pub stopped : LoadTorrents → LoadTorrents × List Effect
stopped job = complete job

-- A run and those that may follow it: they do if it asks for another.
abbrev pub followed_by :
    LoadTorrents × List Effect × Result
    → LoadTorrents × List Effect × Result
    → LoadTorrents × List Effect × Result
followed_by (job, effects, again delay) rest = (rest.0, effects ++ rest.1, rest.2)
followed_by (job, effects, done) rest = (job, effects, done)
followed_by (job, effects, raised) rest = (job, effects, raised)

-- The runs that a scheduler makes: one after another, until one is done or throws, or there are no
-- more turns; the result of the last.
unfoldable pub run_until : List Turn → LoadTorrents → LoadTorrents × List Effect × Result
run_until [] job = (job, [], again 0)
run_until (turn ∷ turns) job = followed_by (run_job turn job) (run_until turns (run_job turn job).0)

-- What a scheduler calls: `Run`, or `Stopped`.
pub data JobCall : Type 0 where
  run_call : Turn → JobCall
  stop_call : JobCall

unfoldable pub perform : JobCall → LoadTorrents → LoadTorrents × List Effect
perform (run_call turn) job = ((run_job turn job).0, (run_job turn job).1)
perform stop_call job = stopped job

unfoldable pub perform_all : List JobCall → LoadTorrents → LoadTorrents × List Effect
perform_all [] job = (job, [])
perform_all (call ∷ calls) job =
    let (job, effects) = perform call job in
    let (job, more) = perform_all calls job in (job, effects ++ more)
