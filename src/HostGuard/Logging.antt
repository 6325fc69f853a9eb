-- ===== src/HostGuard/Logging.antt =====
-- What a guard of src/httphostguard.cpp remembers of the requests that it rejected.
use porla.Base.{
  ◌≡◌, ◌≤◌, refl, Bool, false, List, [], ◌∷◌, Bytes, length, ltb, arith, Bool-cases, inl, inr,
}
use porla.HostGuard.{HostGuard, has_name, make, allows, note, logged_name, reject, host_name}

abbrev pub Distinct : List Bytes → Type 0
Distinct [] = Unit
Distinct (n ∷ ns) = (has_name ns n ≡ false) × Distinct ns

-- `after` differs from `before` in the log at most, in which no name stands twice, and which has no
-- more than 32.
pub record LogsFew (before after : HostGuard) : Type 0 where
  pub same_enabled : after.enabled ≡ before.enabled
  pub same_hosts : after.allowed_hosts ≡ before.allowed_hosts
  pub few : length after.logged ≤ 32
  pub distinct : Distinct after.logged

note-LogsFew :
    (g : HostGuard) (name : Bytes) (h : HostGuard) → LogsFew g h → LogsFew g (note name h)
unfolding note
note-LogsFew g name h v = elim (Bool-cases (ltb (length h.logged) 32)) [
  | inl l ↦ elim (Bool-cases (has_name h.logged name)) [
    | inl k ↦ rw (l, k) v
    | inr k ↦
        rw (l, k)
          (record {
            same_enabled = v.same_enabled;
            same_hosts = v.same_hosts;
            few = ground (arith, l);
            distinct = (k, v.distinct);
          })
  ]
  | inr l ↦ rw l v
]

module _ (loopback : Bytes → Bool) where
  reject-LogsFew :
      (g : HostGuard) (host : Bytes) (h : HostGuard)
      → LogsFew g h
      → LogsFew g (reject loopback host h).0
  unfolding reject
  reject-LogsFew g host h v = elim (Bool-cases (allows loopback h host)) [
    | inl a ↦ rw a v
    | inr a ↦ rw a (note-LogsFew g (logged_name host (host_name host)) h v)
  ]

  -- The guard after a list of requests.
  unfoldable pub rejects : List Bytes → HostGuard → HostGuard
  rejects [] g = g
  rejects (host ∷ hosts) g = rejects hosts (reject loopback host g).0

  rejects-LogsFew :
      (g : HostGuard) (requests : List Bytes) (h : HostGuard)
      → LogsFew g h
      → LogsFew g (rejects requests h)
  unfolding rejects
  rejects-LogsFew g [] h v = v
  rejects-LogsFew g (host ∷ requests) h v =
      rejects-LogsFew g requests (reject loopback host h).0 (reject-LogsFew g host h v)

  -- Requests leave the guard as it was made, but for its log, which never has more than 32 names, each
  -- of them once.
  pub rejects-make-LogsFew :
      (bind_host : Bytes) (hosts requests : List Bytes)
      → LogsFew (make loopback bind_host hosts) (rejects requests (make loopback bind_host hosts))
  rejects-make-LogsFew bind_host hosts requests =
      rejects-LogsFew (make loopback bind_host hosts) requests (make loopback bind_host hosts) (
        unfold make in
        record { same_enabled = refl; same_hosts = refl; few = omega arith; distinct = tt })
