-- ===== src/Examples/GuardRuns.antt =====
-- src/httphostguard.cpp at concrete hosts.
use porla.Base.{◌≡◌, Bool, not, ◌||◌, List, [], ◌∷◌, Bytes, codes, any_of, is_empty, bytes_eq}
use porla.HostGuard.{host_name, is_loopback_host, make, allows}
use porla.HostGuard.Admission.{is_star, is_named, is_admitted, allows-make}

abbrev is_local : Bytes → Bool
is_local = bytes_eq (codes "127.0.0.1")

abbrev lan : List Bytes
lan = codes "porla.lan." ∷ codes "[x" ∷ []

allows-make_example :
    allows is_local (make is_local (codes "0.0.0.0") lan) (codes "PORLA.LAN:1337") ≡ (
      any_of is_star lan
      || (not (any_of is_named lan || is_loopback_host is_local (host_name (codes "0.0.0.0")))
          || (is_empty (codes "PORLA.LAN:1337")
              || is_admitted is_local lan (host_name (codes "PORLA.LAN:1337")))))
allows-make_example = allows-make is_local (codes "0.0.0.0") lan (codes "PORLA.LAN:1337")
