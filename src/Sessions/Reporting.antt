-- ===== src/Sessions/Reporting.antt =====
-- How often the callback of `Sessions::Load` (src/sessions/sessions.cpp) is posted.
use porla.Base.{
  ℕ, zero, suc, ◌+◌, ◌≤◌, ◌<◌, ◌≡◌, refl, sym, ap, ◌∙◌, Bool, false, Bool-cases, inl, inr, List, [],
  ◌∷◌, if◌then◌else◌, ltb, ltb_iff, length, ◌==◌, any_of, arith,
}
use porla.Sessions.{
  Waiting, size_max, decrement, report, report_all, start_waiting, Loads, load_by_id, load_all,
  load,
}

load_by_id-counts :
    (is_stored : ℕ → Bool) (id : ℕ) (l : Loads)
    → (load_by_id is_stored id l).reported + (load_by_id is_stored id l).started
      ≡ 1 + (l.reported + l.started)
unfolding load_by_id
load_by_id-counts is_stored id l = elim (Bool-cases (is_stored id)) [
  | inr h ↦ rw h (omega arith)
  | inl h ↦ elim (Bool-cases (any_of (λ other. other == id) l.loaded)) [
    | inl k ↦ rw (h, k) (omega arith)
    | inr k ↦ rw (h, k) (omega arith)
  ]
]

load_all-counts :
    (is_stored : ℕ → Bool) (ids : List ℕ) (l : Loads)
    → (load_all is_stored ids l).reported + (load_all is_stored ids l).started
      ≡ length ids + (l.reported + l.started)
unfolding load_all
load_all-counts is_stored [] l = omega arith
load_all-counts is_stored (id ∷ ids) l = omega (
  arith,
  load_by_id-counts is_stored id l,
  load_all-counts is_stored ids (load_by_id is_stored id l),
)

decrement-suc : (m : ℕ) → m < size_max → decrement (suc m) ≡ m
decrement-suc m h = omega (arith, h)

report-more :
    (m : ℕ)
    → suc m < size_max
    → report (record { outstanding = suc (suc m); posted = 0 })
      ≡ record { outstanding = suc m; posted = 0 }
unfolding report
report-more m h =
    ap
      (λ d.
        if ltb 0 d
        then record { outstanding = d; posted = 0 }
        else record { outstanding = d; posted = 1 })
      (decrement-suc (suc m) h)
    ∙ rw ((ltb_iff 0 (suc m)).1 (omega arith)) refl

suc-== : (k n : ℕ) → (k == n) ≡ (suc k == suc n)
suc-== k n = ground arith

-- While sessions are outstanding, the callback is posted by the last one.
report_all-posted :
    (k m : ℕ)
    → m < size_max
    → k ≤ suc m
    → (report_all k (record { outstanding = suc m; posted = 0 })).posted
      ≡ (if k == suc m then 1 else 0)
unfolding report_all
report_all-posted zero m h l = ground arith
report_all-posted (suc zero) zero h l = unfold report in refl
report_all-posted (suc (suc k)) zero h l = absurd (omega (arith, l))
report_all-posted (suc k) (suc m) h l =
    ap (λ w. (report_all k w).posted) (report-more m h)
    ∙ report_all-posted k m (omega (arith, h)) (omega (arith, l))
    ∙ ap (λ b. if b then 1 else 0) (suc-== k (suc m))

start_waiting-posted :
    (n k : ℕ)
    → n ≤ size_max
    → k ≤ n
    → (report_all k (start_waiting n)).posted ≡ (if k == n then 1 else 0)
unfolding start_waiting
start_waiting-posted zero zero h l = unfold report_all in refl
start_waiting-posted zero (suc k) h l = absurd (omega (arith, l))
start_waiting-posted (suc n) k h l =
    ap (λ b. (report_all k (if b then at_once else later)).posted) (is_positive n)
    ∙ report_all-posted k n (omega (arith, h)) l
  where
    at_once : Waiting
    at_once = record { outstanding = 0; posted = 1 }

    later : Waiting
    later = record { outstanding = suc n; posted = 0 }

    is_positive : (n : ℕ) → (suc n == 0) ≡ false
    is_positive n = ground arith

-- Each of the stored sessions reports once, at once or when it has been started and has loaded; the callback of
-- Load is posted once, when all have reported, and not before.
pub report_all-load :
    (is_stored : ℕ → Bool) (ids loaded : List ℕ) (k : ℕ)
    → length ids ≤ size_max
    → k ≤ (load is_stored ids loaded).reported + (load is_stored ids loaded).started
    → (report_all k (start_waiting (length ids))).posted ≡ (
        if k == (load is_stored ids loaded).reported + (load is_stored ids loaded).started
        then 1
        else 0)
unfolding load
report_all-load is_stored ids loaded k h l =
    let new : Loads = record { loaded = loaded; reported = 0; started = 0 } in
    let total : (load_all is_stored ids new).reported + (load_all is_stored ids new).started
        ≡ length ids =
      omega (arith, load_all-counts is_stored ids new) in
    start_waiting-posted (length ids) k h (omega (arith, l, total))
    ∙ ap (λ n. if k == n then 1 else 0) (sym total)
