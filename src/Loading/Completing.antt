-- ===== src/Loading/Completing.antt =====
-- How the job of src/sessions/jobs/loadtorrents.cpp ends.
use porla.Base.{
  ℕ, ◌+◌, ◌*◌, ◌≤◌, ◌≡◌, refl, sym, ap, subst, true, false, Bool-cases, inl, inr, ◌⊎◌, List, [],
  ◌∷◌, ◌++◌, Option, none, some, leb, leb_iff, length, arith, In,
}
use porla.Loading.{
  Chunk, read, thrown, Effect, Result, again, done, raised, LoadTorrents, new_job, Fault, no_fault,
  after_chunk, Turn, run_counted, run_job, run_until, followed_by, load_max_chunk_errors,
}
use porla.Loading.Finishing.{IsDone, IsRaised, Ends, finish-Ends}

-- How many turns have a chunk that says that there is more to read.
abbrev pub reads : List Turn → ℕ
reads [] = 0
reads (turn ∷ turns) = elim turn.chunk [
  | read added more ↦ elim more [ true ↦ 1 + reads turns | false ↦ reads turns ]
  | thrown added ↦ reads turns
]

-- In the turn `Count` throws, or a call in `Finish` does.
abbrev pub IsFaulty : Turn → Type 0
IsFaulty turn = (turn.stored ≡ none) ⊎ (turn.fault ≡ no_fault → ⊥)

abbrev pub HasEnded : List Turn → LoadTorrents × List Effect × Result → Type 0
HasEnded turns r = IsDone r ⊎ (IsRaised r × ((turn : Turn) × In turn turns × IsFaulty turn))

-- A job that can still call back, with the errors in a row that it has seen.
record IsWaiting (job : LoadTorrents) : Type 0 where
  keeps : job.callback ≡ true
  few : job.errors ≤ 8

-- A run after which there is another, with what it leaves of the runs that there can be.
record Continues (turn : Turn) (errors : ℕ) (r : LoadTorrents × List Effect × Result) : Type 0 where
  delay : ℕ
  result : r.2 ≡ again delay
  quiet : r.1 ≡ []
  waiting : IsWaiting r.0
  budget : 1 + errors ≤ 9 * reads (turn ∷ []) + (r.0).errors

abbrev TurnCases : Turn → ℕ → LoadTorrents × List Effect × Result → Type 0
TurnCases turn errors r = Continues turn errors r ⊎ (IsDone r ⊎ (IsRaised r × IsFaulty turn))

Ends-cases :
    (turn : Turn) (errors : ℕ) (r : LoadTorrents × List Effect × Result)
    → Ends turn.fault r
    → TurnCases turn errors r
Ends-cases turn errors r (inl d) = inr (inl d)
Ends-cases turn errors r (inr (x, f)) = inr (inr (x, inr f))

after_chunk-cases :
    (stored : Option ℕ) (chunk : Chunk) (fault : Fault) (job : LoadTorrents)
    → IsWaiting job
    → TurnCases
        (record { stored = stored; chunk = chunk; fault = fault })
        job.errors
        (after_chunk chunk fault job)
unfolding after_chunk
after_chunk-cases stored (read added true) fault job w = inl (record {
  delay = 0;
  result = refl;
  quiet = refl;
  waiting = record { keeps = w.keeps; few = omega arith };
  budget = omega (arith, w.few);
})
after_chunk-cases stored (read added false) fault job w =
    Ends-cases _ _ _ (finish-Ends fault _ w.keeps)
after_chunk-cases stored (thrown added) fault job w =
    elim (Bool-cases (leb (job.errors + 1) load_max_chunk_errors)) [
      | inl h ↦ rw h (
          inl (record {
            delay = _;
            result = refl;
            quiet = refl;
            waiting = record {
              keeps = w.keeps;
              few = (leb_iff (job.errors + 1) load_max_chunk_errors).0 h;
            };
            budget = omega arith;
          }))
      | inr h ↦ rw h (Ends-cases _ _ _ (finish-Ends fault _ w.keeps))
    ]

run_counted-cases :
    (count stored : Option ℕ) (turn : Turn) (job : LoadTorrents)
    → turn.stored ≡ stored
    → IsWaiting job
    → TurnCases turn job.errors (run_counted count stored turn job)
unfolding run_counted
run_counted-cases (some n) stored turn job e w =
    after_chunk-cases turn.stored turn.chunk turn.fault job w
run_counted-cases none (some n) turn job e w =
    after_chunk-cases turn.stored turn.chunk turn.fault (record job { count = some n })
      (record { keeps = w.keeps; few = w.few })
run_counted-cases none none turn job e w =
    inr (inr (record { result = refl; uncalled = refl; suspended = refl; keeps = w.keeps }, inl e))

run_job-cases :
    (turn : Turn) (job : LoadTorrents)
    → IsWaiting job
    → TurnCases turn job.errors (run_job turn job)
unfolding run_job
run_job-cases turn job w = run_counted-cases job.count turn.stored turn job refl w

reads-cons :
    (turn : Turn) (turns : List Turn) → reads (turn ∷ turns) ≡ reads (turn ∷ []) + reads turns
reads-cons turn turns = by_chunk turn.chunk
  where
    by_chunk :
        (chunk : Chunk)
        → reads (record turn { chunk = chunk } ∷ turns)
          ≡ reads (record turn { chunk = chunk } ∷ []) + reads turns
    by_chunk (read added true) = omega arith
    by_chunk (read added false) = omega arith
    by_chunk (thrown added) = omega arith

-- A run that is the last decides.
last-IsDone :
    (r rest : LoadTorrents × List Effect × Result) → IsDone r → IsDone (followed_by r rest)
last-IsDone (job, effects, again delay) rest d = let e = d.result in absurd cc
last-IsDone (job, effects, done) rest d = d
last-IsDone (job, effects, raised) rest d = d

last-IsRaised :
    (r rest : LoadTorrents × List Effect × Result) → IsRaised r → IsRaised (followed_by r rest)
last-IsRaised (job, effects, again delay) rest x = let e = x.result in absurd cc
last-IsRaised (job, effects, done) rest x = x
last-IsRaised (job, effects, raised) rest x = x

-- Otherwise the runs that follow do.
followed_by-again :
    (delay : ℕ) (r rest : LoadTorrents × List Effect × Result)
    → r.2 ≡ again delay
    → r.1 ≡ []
    → followed_by r rest ≡ rest
followed_by-again delay (job, effects, again d) rest e q =
    ap (λ es. (rest.0, es ++ rest.1, rest.2)) q
followed_by-again delay (job, effects, done) rest e q = absurd cc
followed_by-again delay (job, effects, raised) rest e q = absurd cc

more-HasEnded :
    (turn : Turn) (turns : List Turn) (r : LoadTorrents × List Effect × Result)
    → HasEnded turns r
    → HasEnded (turn ∷ turns) r
more-HasEnded turn turns r (inl d) = inl d
more-HasEnded turn turns r (inr (x, (t, m, f))) = inr (x, (t, inr m, f))

waiting-HasEnded :
    (turns : List Turn) (job : LoadTorrents)
    → IsWaiting job
    → 9 * (1 + reads turns) ≤ length turns + job.errors
    → HasEnded turns (run_until turns job)
waiting-HasEnded [] job w h = absurd (omega (arith, h, w.few))
waiting-HasEnded (turn ∷ turns) job w h =
    by_cases (run_job-cases turn job w) (λ k b. waiting-HasEnded turns _ k b)
  where
    by_cases :
        TurnCases turn job.errors (run_job turn job)
        → (IsWaiting (run_job turn job).0
            → 9 * (1 + reads turns) ≤ length turns + ((run_job turn job).0).errors
            → HasEnded turns (run_until turns (run_job turn job).0))
        → HasEnded (turn ∷ turns) (run_until (turn ∷ turns) job)
    by_cases (inr (inl d)) rest = unfold run_until in inl (last-IsDone (run_job turn job) _ d)
    by_cases (inr (inr (x, f))) rest =
        unfold run_until in inr (last-IsRaised (run_job turn job) _ x, (turn, inl refl, f))
    by_cases (inl k) rest =
        unfold run_until in
        subst (HasEnded (turn ∷ turns))
          (sym (followed_by-again k.delay (run_job turn job) _ k.result k.quiet))
          (more-HasEnded turn turns _
            (rest k.waiting (omega (arith, h, k.budget, reads-cons turn turns))))

-- Within nine runs for each chunk that says that there is more to read, and nine more, the job is done,
-- however many of the chunks throw: it has then called its caller back exactly once, and has let its
-- scheduler go on exactly once. Or an exception has left a run, which happens only if `Count`, or in
-- `Finish` one of `ReconcileTorrents`, `Publish` and `post_torrent_updates`, throws in some turn: the
-- caller has not been called back then, its callback stays, and the scheduler does not go on.
pub run_until-HasEnded :
    (turns : List Turn)
    → 9 * (1 + reads turns) ≤ length turns
    → HasEnded turns (run_until turns new_job)
run_until-HasEnded turns h =
    waiting-HasEnded turns new_job (record { keeps = refl; few = omega arith }) (omega (arith, h))
