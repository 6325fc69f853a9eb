-- ===== src/HostGuard.antt =====
-- src/httphostguard.cpp: the check of the Host header against DNS rebinding. `loopback` stands for
-- `make_address` and `is_loopback` of boost.
pub mod Names
pub mod Admission
pub mod Logging
use porla.Base.{
  ℕ, ◌==◌, Bool, true, false, not, ◌&&◌, ◌||◌, List, [], ◌∷◌, Option, none, some, Bytes, codes,
  if◌then◌else◌, is_some, any_of, all_of, bytes_eq, drop, take, is_empty, is_digit, length, ltb,
}
use porla.Text.{to_lower}
use porla.Text.Split.{find}

-- The name and the port, which has its colon, of "name", "name:port", "[v6]" or "[v6]:port".
unfoldable pub after_bracket : Option (Bytes × Bytes) → Option (Bytes × Bytes)
after_bracket none = none
after_bracket (some (before, [])) = some (drop 1 before, [])
after_bracket (some (before, c ∷ port)) = if c == b':' then some (drop 1 before, c ∷ port) else none

unfoldable pub at_colon : Bytes → Option (Bytes × Bytes) → Bytes × Bytes
at_colon host none = (host, [])
at_colon host (some (before, after)) =
    if is_some (find (codes ":") after) then (host, []) else (before, b':' ∷ after)

unfoldable pub split_host : Bytes → Option (Bytes × Bytes)
unfolding after_bracket at_colon
split_host [] = some ([], [])
split_host (c ∷ host) =
    if c == b'['
    then after_bracket (find (codes "]") (c ∷ host))
    else some (at_colon (c ∷ host) (find (codes ":") (c ∷ host)))

unfoldable pub is_port : Bytes → Bool
is_port [] = true
is_port (c ∷ digits) = not (is_empty digits) && all_of is_digit digits

unfoldable pub drop_dot : Bytes → Bytes
drop_dot [] = []
drop_dot (c ∷ []) = if c == b'.' then [] else c ∷ []
drop_dot (c ∷ d ∷ s) = c ∷ drop_dot (d ∷ s)

unfoldable pub lower_name : Bytes → Option Bytes
unfolding drop_dot
lower_name host = if is_empty (drop_dot host) then none else some (to_lower (drop_dot host))

unfoldable pub name_of : Option (Bytes × Bytes) → Option Bytes
name_of none = none
name_of (some (host, port)) = if is_port port then lower_name host else none

-- `HostName`.
unfoldable pub host_name : Bytes → Option Bytes
host_name text = name_of (split_host text)

unfoldable pub ends_with : Bytes → Bytes → Bool
ends_with suffix [] = bytes_eq suffix []
ends_with suffix (c ∷ s) = bytes_eq suffix (c ∷ s) || ends_with suffix s

pub record HostGuard : Type 0 where
  pub enabled : Bool
  pub allowed_hosts : List Bytes
  pub logged : List Bytes

-- The loop of the constructor, with `any` and `m_allowed_hosts`.
unfoldable pub read_hosts : List Bytes → Bool → List Bytes → Bool × List Bytes
read_hosts [] any allowed = (any, allowed)
read_hosts (host ∷ hosts) any allowed =
    let skipped = read_hosts hosts any allowed in
    if bytes_eq host (codes "*") then read_hosts hosts true allowed else elim (host_name host) [
      | none ↦ skipped
      | some name ↦ read_hosts hosts any (name ∷ allowed)
    ]

-- A set, as the list of what was inserted.
abbrev pub has_name : List Bytes → Bytes → Bool
has_name names name = any_of (bytes_eq name) names

abbrev pub logged_name : Bytes → Option Bytes → Bytes
logged_name host none = take 64 host
logged_name host (some name) = name

-- The insertion into `m_logged`, which holds at most 32 names.
unfoldable pub note : Bytes → HostGuard → HostGuard
note name g =
    if ltb (length g.logged) 32
    then (if has_name g.logged name then g else record g { logged = name ∷ g.logged })
    else g

module _ (loopback : Bytes → Bool) where
  unfoldable pub is_loopback_name : Bytes → Bool
  unfolding ends_with
  is_loopback_name name =
      if bytes_eq name (codes "localhost") || ends_with (codes ".localhost") name
      then true
      else loopback name

  abbrev pub is_loopback_host : Option Bytes → Bool
  is_loopback_host none = false
  is_loopback_host (some name) = is_loopback_name name

  -- The constructor.
  unfoldable pub make : Bytes → List Bytes → HostGuard
  unfolding read_hosts
  make bind_host hosts =
      let (any, allowed) = read_hosts hosts false [] in
      record {
        enabled = not any && (not (is_empty allowed) || is_loopback_host (host_name bind_host));
        allowed_hosts = allowed;
        logged = [];
      }

  abbrev pub is_allowed : List Bytes → Option Bytes → Bool
  is_allowed allowed none = false
  is_allowed allowed (some name) = is_loopback_name name || has_name allowed name

  unfoldable pub allows : HostGuard → Bytes → Bool
  allows g host_header =
      if not g.enabled || is_empty host_header
      then true
      else is_allowed g.allowed_hosts (host_name host_header)

  -- `Reject`: the guard after it, and whether the request was answered with 403.
  unfoldable pub reject : Bytes → HostGuard → HostGuard × Bool
  unfolding allows note
  reject host g =
      if allows g host then (g, false) else (note (logged_name host (host_name host)) g, true)
