-- ===== src/HostGuard/Admission.antt =====
-- Which hosts a guard of src/httphostguard.cpp admits.
use porla.Base.{
  ◌≡◌, refl, ◌∙◌, Bool, true, false, not, ◌&&◌, ◌||◌, List, [], ◌∷◌, Option, none, some, Bytes,
  codes, if◌then◌else◌, any_of, bytes_eq, is_empty, arith, Bool-cases, Option-cases, inl, inr,
  is_some,
}
use porla.HostGuard.{
  host_name, read_hosts, has_name, is_loopback_name, is_loopback_host, make, is_allowed, allows,
}

abbrev pub is_star : Bytes → Bool
is_star host = bytes_eq host (codes "*")

abbrev named_by : Bytes → Option Bytes → Bool
named_by name none = false
named_by name (some n) = bytes_eq name n

-- The entry of the list of allowed hosts is not "*" and has this name.
abbrev pub names : Bytes → Bytes → Bool
names name host = not (is_star host) && named_by name (host_name host)

abbrev pub is_named : Bytes → Bool
is_named host = not (is_star host) && is_some (host_name host)

or_assoc : (a b c : Bool) → a || (b || c) ≡ (b || a) || c
or_assoc a b c = ground arith

module _ (host : Bytes) (hosts : List Bytes) (any : Bool) (allowed : List Bytes) where
  read_star :
      is_star host ≡ true → read_hosts (host ∷ hosts) any allowed ≡ read_hosts hosts true allowed
  unfolding read_hosts
  read_star h = rw h refl

  read_none :
      is_star host ≡ false
      → host_name host ≡ none
      → read_hosts (host ∷ hosts) any allowed ≡ read_hosts hosts any allowed
  unfolding read_hosts
  read_none h n = rw (h, n) refl

  read_some :
      (name : Bytes)
      → is_star host ≡ false
      → host_name host ≡ some name
      → read_hosts (host ∷ hosts) any allowed ≡ read_hosts hosts any (name ∷ allowed)
  unfolding read_hosts
  read_some name h n = rw (h, n) refl

-- What holds of the two results for each list of hosts, by the three cases of the loop.
abbrev Read : List Bytes → Bool → List Bytes → Bool × List Bytes → Type 0
Read hosts any allowed r =
    (r.0 ≡ any || any_of is_star hosts)
    × (not (is_empty r.1) ≡ any_of is_named hosts || not (is_empty allowed))
    × ((name : Bytes) → has_name r.1 name ≡ any_of (names name) hosts || has_name allowed name)

read_hosts-Read :
    (hosts : List Bytes) (any : Bool) (allowed : List Bytes)
    → Read hosts any allowed (read_hosts hosts any allowed)
read_hosts-Read [] any allowed = unfold read_hosts in (ground arith, refl, λ name. refl)
read_hosts-Read (host ∷ hosts) any allowed = elim (Bool-cases (is_star host)) [
  | inl h ↦
      let (a, b, c) = read_hosts-Read hosts true allowed in
      rw (read_star host hosts any allowed h)
        (ground (arith, a, h), ground (arith, b, h), λ name. ground (arith, c name, h))
  | inr h ↦ elim (Option-cases (host_name host)) [
    | inl n ↦
        let (a, b, c) = read_hosts-Read hosts any allowed in
        rw (read_none host hosts any allowed h n)
          (ground (arith, a, h), rw (h, n) b, λ name. rw (h, n) (c name))
    | inr (name, n) ↦
        let (a, b, c) = read_hosts-Read hosts any (name ∷ allowed) in
        rw (read_some host hosts any allowed name h n) (
          ground (arith, a, h),
          rw (h, n) (ground (arith, b)),
          λ x.
              rw (h, n)
                (c x ∙ or_assoc (any_of (names x) hosts) (bytes_eq x name) (has_name allowed x)),
        )
  ]
]

module _ (loopback : Bytes → Bool) where
  -- A name that the list of allowed hosts or the loopback names admit.
  abbrev pub is_admitted : List Bytes → Option Bytes → Bool
  is_admitted hosts none = false
  is_admitted hosts (some name) = is_loopback_name loopback name || any_of (names name) hosts

  admitted :
      (hosts : List Bytes) (o : Option Bytes) (allowed : List Bytes)
      → ((name : Bytes) → has_name allowed name ≡ any_of (names name) hosts || false)
      → is_allowed loopback allowed o ≡ is_admitted hosts o
  admitted hosts none allowed c = refl
  admitted hosts (some name) allowed c = rw (c name) (ground arith)

  tests :
      (s n l e w : Bool)
      → (if not (not s && (n || false || l)) || e then true else w)
        ≡ (s || (not (n || l) || (e || w)))
  tests s n l e w = ground arith

  -- A guard admits a request exactly if the list of allowed hosts has "*"; or it has no valid name and
  -- the server is not bound to a loopback name; or there is no Host header; or the header's name is a
  -- loopback name or the name of an entry of the list.
  pub allows-make :
      (bind_host : Bytes) (hosts : List Bytes) (host_header : Bytes)
      → allows loopback (make loopback bind_host hosts) host_header ≡ (
          any_of is_star hosts
          || (not (any_of is_named hosts || is_loopback_host loopback (host_name bind_host))
              || (is_empty host_header || is_admitted hosts (host_name host_header))))
  unfolding allows make
  allows-make bind_host hosts host_header =
      let (a, b, c) = read_hosts-Read hosts false [] in
      let w = admitted hosts (host_name host_header) (read_hosts hosts false []).1 c in
      rw (a, b, w)
        (tests (any_of is_star hosts) (any_of is_named hosts)
          (is_loopback_host loopback (host_name bind_host)) (is_empty host_header)
          (is_admitted hosts (host_name host_header)))
