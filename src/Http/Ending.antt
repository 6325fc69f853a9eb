-- ===== src/Http/Ending.antt =====
-- How a wait of src/curlmulti.cpp ends, for the flags and the other waits.
use porla.Base.{
  ℕ, zero, suc, ◌+◌, ◌<◌, ◌≡◌, ◌≢◌, refl, sym, ap, ◌∙◌, Bool, true, false, Bool-cases, inl, inr,
  ◌⊎◌, List, [], ◌∷◌, Option, none, some, if◌then◌else◌, ◌==◌, ==_iff, &&_iff, arith,
}
use porla.Http.{Direction, Socket, Wait, CurlMulti}
use porla.Http.Sockets.{flag, set_flag, find_socket}
use porla.Http.Events.{take_at, clear_flag}
use porla.Http.Armed.{
  ==-refl, same_direction, matches, pending, Fits-agree, find_socket-below, find_socket-pending,
  Fits-change,
}
use porla.Http.Waiting.{
  IsArmed, change_socket-empty, set_flag-IsChange, flag-set_flag, same_direction→eq,
}

-- The state without a wait that has ended, before its flag is cleared.
abbrev pub without : List Wait → CurlMulti → CurlMulti
without rest s = record s { waits = rest }

-- What is taken from the waits, and what is left.
abbrev pub Took : List Wait → Option (Wait × List Wait) → Type 0
Took ws none = Unit
Took ws (some r) =
    (sock id : ℕ) (d : Direction) → pending ws sock id d ≡ pending (r.0 ∷ r.1) sock id d

pub take_at-Took : (n : ℕ) (ws : List Wait) → Took ws (take_at n ws)
unfolding take_at
take_at-Took n [] = tt
take_at-Took zero (w ∷ ws) = λ sock id d. refl
take_at-Took (suc n) (w ∷ ws) = further (take_at n ws) (take_at-Took n ws)
  where
    further :
        (o : Option (Wait × List Wait))
        → Took ws o
        → Took (w ∷ ws) (elim o [ none ↦ none | some r ↦ some (r.0, w ∷ r.1) ])
    further none t = tt
    further (some r) t = λ sock id d. omega (arith, t sock id d)

matches→eq :
    (w : Wait) (sock id : ℕ) (d : Direction)
    → matches w sock id d ≡ true
    → (w.socket ≡ sock) × (w.id ≡ id) × (w.direction ≡ d)
matches→eq w sock id d h =
    let (a, b) = (&&_iff (w.socket == sock) _).0 h in
    let (b, c) = (&&_iff (w.id == id) _).0 b in
    ((==_iff w.socket sock).0 a, (==_iff w.id id).0 b, same_direction→eq w.direction d c)

-- A wait ends whose socket is gone: the flags of the others agree with the waits that are left.
pub gone-IsArmed :
    (k : ℕ) (s : CurlMulti) (w : Wait) (rest : List Wait)
    → Took s.waits (some (w, rest))
    → ((r : Socket) → find_socket w.socket s.sockets ≡ some r → r.id ≢ w.id)
    → IsArmed k s
    → IsArmed k (without rest s)
gone-IsArmed k s w rest t g a = record {
  few = a.few;
  fits = Fits-agree s.sockets (pending s.waits) (pending rest) agree a.fits;
  fresh = λ sock id d n. omega (arith, a.fresh sock id d n, t sock id d);
  closed = a.closed;
}
  where
    agree :
        (r : Socket)
        → find_socket r.socket s.sockets ≡ some r
        → r.id < suc s.next_id
        → (d : Direction) → pending rest r.socket r.id d ≡ pending s.waits r.socket r.id d
    agree r e l d = elim (Bool-cases (matches w r.socket r.id d)) [
      | inl m ↦
          let same = matches→eq w r.socket r.id d m in
          absurd (g r (ap (λ n. find_socket n s.sockets) same.0 ∙ e) (sym same.1))
      | inr m ↦ sym (t r.socket r.id d ∙ rw m (omega arith))
    ]

-- A wait ends whose socket is there: its flag is cleared.
pub cleared-IsArmed :
    (k : ℕ) (s : CurlMulti) (w : Wait) (rest : List Wait) (r : Socket)
    → Took s.waits (some (w, rest))
    → find_socket w.socket s.sockets ≡ some r
    → r.id ≡ w.id
    → IsArmed k s
    → IsArmed k (clear_flag w (without rest s))
unfolding clear_flag
cleared-IsArmed k s w rest r t e same a = record {
  few = a.few;
  fits =
      Fits-change (suc s.next_id) w.socket (set_flag w.direction false)
        (set_flag-IsChange w.direction false) s.sockets (pending s.waits) (pending rest) r e cleared
        other a.fits;
  fresh = λ sock id d n. omega (arith, a.fresh sock id d n, t sock id d);
  closed = λ b. change_socket-empty w.socket _ s.sockets (a.closed b);
}
  where
    key : r.socket ≡ w.socket
    key = (find_socket-below w.socket s.sockets (pending s.waits) r a.fits e).1

    other :
        (sock id : ℕ) (d : Direction)
        → id ≢ r.id
        → pending rest sock id d ≡ pending s.waits sock id d
    other sock id d n = elim (Bool-cases (matches w sock id d)) [
      | inl m ↦ absurd (n (sym ((matches→eq w sock id d m).1) ∙ sym same))
      | inr m ↦ sym (t sock id d ∙ rw m (omega arith))
    ]

    none_left : (b : Bool) {n : ℕ} → (if b then 1 else 0) ≡ 1 + n → n ≡ 0
    none_left true h = omega (arith, h)
    none_left false h = absurd (omega (arith, h))

    cleared :
        (d : Direction)
        → pending rest r.socket r.id d ≡ (if flag d (set_flag w.direction false r) then 1 else 0)
    cleared d =
        counted (Bool-cases (same_direction w.direction d)) (t r.socket r.id d)
          (find_socket-pending (suc s.next_id) w.socket s.sockets (pending s.waits) r a.fits e d)
      where
        matched : matches w r.socket r.id d ≡ same_direction w.direction d
        matched = rw (key, same, ==-refl w.socket, ==-refl w.id) refl

        counted :
            (same_direction w.direction d ≡ true) ⊎ (same_direction w.direction d ≡ false)
            → pending s.waits r.socket r.id d
              ≡ (if matches w r.socket r.id d then 1 else 0) + pending rest r.socket r.id d
            → pending s.waits r.socket r.id d ≡ (if flag d r then 1 else 0)
            → pending rest r.socket r.id d
              ≡ (if flag d (set_flag w.direction false r) then 1 else 0)
        counted (inl m) p q =
            rw (flag-set_flag w.direction d false r, m)
              (none_left (flag d r) (sym q ∙ p ∙ rw (matched, m) refl))
        counted (inr m) p q =
            rw (flag-set_flag w.direction d false r, m)
              (let u : pending s.waits r.socket r.id d ≡ 0 + pending rest r.socket r.id d =
                  p ∙ rw (matched, m) refl in
                omega (arith, u, q))
