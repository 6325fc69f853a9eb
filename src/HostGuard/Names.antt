-- ===== src/HostGuard/Names.antt =====
-- `HostName` of src/httphostguard.cpp and the port.
use porla.Base.{
  ℕ, ◌≡◌, refl, sym, ap, ◌∙◌, Bool, true, false, not, ◌&&◌, ◌||◌, List, [], ◌∷◌, ◌++◌, Option, none,
  some, Bytes, codes, ◌==◌, if◌then◌else◌, is_some, is_empty, is_digit, all_of, any_of, arith,
  Bool-cases, inl, inr, ◌⊎◌,
}
use porla.Text.Split.{find, find_hit, find_miss, prepend}
use porla.HostGuard.{at_colon, split_host, is_port, name_of, host_name}

abbrev pub has_colon : Bytes → Bool
has_colon = any_of (λ c. c == b':')

abbrev pub is_bracketed : Bytes → Bool
is_bracketed [] = false
is_bracketed (c ∷ host) = c == b'['

find-nil : find (codes ":") [] ≡ none
unfolding find porla.Base.strip_prefix porla.Text.Split.at_start
find-nil = refl

find_free : (s : Bytes) → has_colon s ≡ false → find (codes ":") s ≡ none
find_free [] h = find-nil
find_free (c ∷ s) h =
    find_miss c b':' s (ground arith) ∙ rw (find_free s (ground arith)) (unfold prepend in refl)

find_first :
    (host port : Bytes)
    → has_colon host ≡ false
    → find (codes ":") (host ++ b':' ∷ port) ≡ some (host, port)
find_first [] port h = find_hit b':' b':' port refl
find_first (c ∷ host) port h =
    find_miss c b':' (host ++ b':' ∷ port) (ground arith)
    ∙ rw (find_first host port (ground arith)) (unfold prepend in refl)

digits_free : (s : Bytes) → all_of is_digit s ≡ true → has_colon s ≡ false
unfolding is_digit
digits_free [] h = refl
digits_free (c ∷ s) h = ground (arith, digits_free s)

split_host-plain :
    (host : Bytes)
    → is_bracketed host ≡ false
    → has_colon host ≡ false
    → split_host host ≡ some (host, [])
unfolding split_host at_colon
split_host-plain [] b h = refl
split_host-plain (c ∷ host) b h = rw (b, find_free (c ∷ host) h) refl

split_host-port :
    (host port : Bytes)
    → is_bracketed host ≡ false
    → has_colon host ≡ false
    → has_colon port ≡ false
    → split_host (host ++ b':' ∷ port) ≡ some (host, b':' ∷ port)
unfolding split_host at_colon
split_host-port [] port b h p = rw (find_hit b':' b':' port refl, find_free port p) refl
split_host-port (c ∷ host) port b h p = rw (b, find_first (c ∷ host) port h, find_free port p) refl

-- A host that does not begin with a bracket and has no colon has the same name with a colon and a
-- number of at least one digit behind it.
host_name-port :
    (host : Bytes) (d : ℕ) (digits : Bytes)
    → is_bracketed host ≡ false
    → has_colon host ≡ false
    → all_of is_digit (d ∷ digits) ≡ true
    → host_name (host ++ b':' ∷ d ∷ digits) ≡ host_name host
unfolding host_name
host_name-port host d digits b h p =
    ap name_of (split_host-port host (d ∷ digits) b h (digits_free (d ∷ digits) p))
    ∙ with_port
    ∙ ap name_of (sym (split_host-plain host b h))
  where
    with_port : name_of (some (host, b':' ∷ d ∷ digits)) ≡ name_of (some (host, []))
    with_port = unfold name_of in unfold is_port in rw p refl
