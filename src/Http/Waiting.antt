-- ===== src/Http/Waiting.antt =====
-- The waits in flight of src/curlmulti.cpp and the flags of its sockets: what `ArmSocket` keeps.
use porla.Base.{
  ℕ, suc, ◌+◌, ◌^◌, ◌≤◌, ◌<◌, ◌≡◌, ◌≢◌, ◌⊎◌, refl, sym, ap, ◌∙◌, subst, Bool, true, false, not,
  ◌&&◌, ◌||◌, Bool-cases, inl, inr, List, [], ◌∷◌, Option, none, some, if◌then◌else◌, ◌==◌, ==_iff,
  if_cases, arith,
}
use porla.Http.{Direction, reads, writes, Socket, Wait, CurlMulti}
use porla.Http.Sockets.{
  wants, flag, set_flag, find_socket, change_socket, arm, arm_found, arm_socket,
}
use porla.Http.Armed.{
  same_direction, pending, Fits, IsChange, find_socket-below, find_socket-changed,
  find_socket-pending, Fits-change, ==-refl,
}

-- The flags of the sockets tell which waits are in flight, and no id is in use that is still to be given out,
-- of which at most `k` have been; and once the client is shut, it has no socket.
pub record IsArmed (k : ℕ) (s : CurlMulti) : Type 0 where
  pub few : s.next_id ≤ k
  pub fits : Fits (suc s.next_id) s.sockets (pending s.waits)
  pub fresh : (sock id : ℕ) (d : Direction) → s.next_id < id → pending s.waits sock id d ≡ 0
  pub closed : s.is_shut ≡ true → s.sockets ≡ []

-- What keeps this with at most `n` more ids.
abbrev pub Grows : ℕ → CurlMulti → CurlMulti → Type 0
Grows n s t = (k : ℕ) → k + n < 2 ^ 64 → IsArmed k s → IsArmed (k + n) t

IsArmed-weaken : (j k : ℕ) (s : CurlMulti) → j ≤ k → IsArmed j s → IsArmed k s
IsArmed-weaken j k s h a = record {
  few = omega (arith, a.few, h);
  fits = a.fits;
  fresh = a.fresh;
  closed = a.closed;
}

pub Grows-trans : (n m : ℕ) (s t u : CurlMulti) → Grows n s t → Grows m t u → Grows (n + m) s u
Grows-trans n m s t u g h k l a =
    IsArmed-weaken _ _ u (omega arith) (h (k + n) (omega (arith, l)) (g k (omega (arith, l)) a))

pub Grows-more : (n m : ℕ) (s t : CurlMulti) → n ≤ m → Grows n s t → Grows m s t
Grows-more n m s t h g k l a = IsArmed-weaken _ _ t (omega (arith, h)) (g k (omega (arith, h, l)) a)

-- What leaves the sockets, the waits and the ids.
abbrev pub wired : CurlMulti → ℕ × List Socket × List Wait × Bool
wired s = (s.next_id, s.sockets, s.waits, s.is_shut)

pub IsArmed-wired : (k : ℕ) (s t : CurlMulti) → wired t ≡ wired s → IsArmed k s → IsArmed k t
IsArmed-wired k s t e a = record {
  few = rw (ap (λ w. w.0) e) a.few;
  fits = rw (ap (λ w. w.0) e, ap (λ w. w.1) e, ap (λ w. w.2) e) a.fits;
  fresh = rw (ap (λ w. w.0) e, ap (λ w. w.2) e) a.fresh;
  closed = λ b. ap (λ w. w.1) e ∙ a.closed (sym (ap (λ w. w.3) e) ∙ b);
}

pub wired-Grows : (s t : CurlMulti) → wired t ≡ wired s → Grows 0 s t
wired-Grows s t e k l a = IsArmed-weaken _ _ t (omega arith) (IsArmed-wired k s t e a)

pub Grows-before : (n : ℕ) (s t u : CurlMulti) → wired t ≡ wired s → Grows n t u → Grows n s u
Grows-before n s t u e g k l a = g k l (IsArmed-wired k s t e a)

pub Grows-after : (n : ℕ) (s t u : CurlMulti) → Grows n s t → wired u ≡ wired t → Grows n s u
Grows-after n s t u g e k l a = IsArmed-wired (k + n) t u e (g k l a)

pub stays : (n : ℕ) (s : CurlMulti) → Grows n s s
stays n s = Grows-more 0 n s s (omega arith) (wired-Grows s s refl)

pub set_flag-IsChange : (d : Direction) (b : Bool) → IsChange (set_flag d b)
set_flag-IsChange reads b = record { keeps_socket = λ r. refl; keeps_id = λ r. refl }
set_flag-IsChange writes b = record { keeps_socket = λ r. refl; keeps_id = λ r. refl }

pub flag-set_flag :
    (d e : Direction) (b : Bool) (r : Socket)
    → flag e (set_flag d b r) ≡ (if same_direction d e then b else flag e r)
flag-set_flag reads reads b r = refl
flag-set_flag reads writes b r = refl
flag-set_flag writes reads b r = refl
flag-set_flag writes writes b r = refl

pub same_direction→eq : (d e : Direction) → same_direction d e ≡ true → d ≡ e
same_direction→eq reads reads h = refl
same_direction→eq reads writes h = absurd cc
same_direction→eq writes reads h = absurd cc
same_direction→eq writes writes h = refl

-- The waits for a socket after one more for it.
pending-here :
    (ws : List Wait) (sock id : ℕ) (d e : Direction)
    → pending (record { socket = sock; id = id; direction = d } ∷ ws) sock id e
      ≡ (if same_direction d e then 1 else 0) + pending ws sock id e
pending-here ws sock id d e = rw (==-refl sock, ==-refl id) refl

pending-other :
    (ws : List Wait) (w : Wait) (sock id : ℕ) (d : Direction)
    → id ≢ w.id
    → pending (w ∷ ws) sock id d ≡ pending ws sock id d
pending-other ws w sock id d h = elim (Bool-cases (w.id == id)) [
  | inl e ↦ absurd (h (sym ((==_iff w.id id).0 e)))
  | inr e ↦
      rw e
        (elim (w.socket == sock)
          as (λ b. (if b && false then 1 else 0) + pending ws sock id d ≡ pending ws sock id d) [
            | true ↦ omega arith
            | false ↦ omega arith
          ])
]

or_false : (a b : Bool) → (a || b) ≡ false → (a ≡ false) × (b ≡ false)
or_false true b h = absurd cc
or_false false b h = (refl, h)

pub change_socket-empty :
    (sock : ℕ) (f : Socket → Socket) (rs : List Socket) → rs ≡ [] → change_socket sock f rs ≡ []
unfolding change_socket
change_socket-empty sock f rs e = rw e refl

arm-Grows :
    (sock : ℕ) (d : Direction) (r : Socket) (s : CurlMulti)
    → find_socket sock s.sockets ≡ some r
    → Grows 0 s (arm sock d r s)
unfolding arm
arm-Grows sock d r s e =
    if_cases (Grows 0 s) (not (wants r.action d) || flag d r) (λ h. wired-Grows s s refl)
      (λ h k l a.
        let (below, same) = find_socket-below sock s.sockets (pending s.waits) r a.fits e in
        record {
          few = omega (arith, a.few);
          fits =
              Fits-change (suc s.next_id) sock (set_flag d true) (set_flag-IsChange d true)
                s.sockets (pending s.waits) _ r e (flags h a same)
                (λ k i f n. pending-other s.waits _ k i f n) a.fits;
          fresh = λ k i f n.
              pending-other s.waits _ k i f (λ m. absurd (omega (arith, n, m, below)))
              ∙ a.fresh k i f n;
          closed = λ b. change_socket-empty sock (set_flag d true) s.sockets (a.closed b);
        })
  where
    flags :
        (not (wants r.action d) || flag d r) ≡ false
        → {k : ℕ} → IsArmed k s
        → r.socket ≡ sock
        → (f : Direction)
        → pending (record { socket = sock; id = r.id; direction = d } ∷ s.waits) r.socket r.id f
          ≡ (if flag f (set_flag d true r) then 1 else 0)
    flags h a same f =
        subst
          (λ n.
            pending (record { socket = n; id = r.id; direction = d } ∷ s.waits) r.socket r.id f
            ≡ (if flag f (set_flag d true r) then 1 else 0))
          same
          (pending-here s.waits r.socket r.id d f
            ∙ counted (Bool-cases (same_direction d f))
                (find_socket-pending (suc s.next_id) sock s.sockets (pending s.waits) r a.fits e f))
      where
        counted :
            (same_direction d f ≡ true) ⊎ (same_direction d f ≡ false)
            → pending s.waits r.socket r.id f ≡ (if flag f r then 1 else 0)
            → (if same_direction d f then 1 else 0) + pending s.waits r.socket r.id f
              ≡ (if flag f (set_flag d true r) then 1 else 0)
        counted (inl t) q =
            let clear : flag f r ≡ false =
              ap (λ x. flag x r) (sym (same_direction→eq d f t)) ∙ ((or_false _ _ h).1) in
            rw (flag-set_flag d f true r, t, q, clear) refl
        counted (inr t) q = rw (flag-set_flag d f true r, t, q) (omega arith)

arm_found-Grows :
    (sock : ℕ) (o : Option Socket) (s : CurlMulti)
    → find_socket sock s.sockets ≡ o
    → Grows 0 s (arm_found sock o s)
unfolding arm_found arm
arm_found-Grows sock none s e = wired-Grows s s refl
arm_found-Grows sock (some r) s e =
    Grows-trans 0 0 s (arm sock reads r s) _ (arm-Grows sock reads r s e) then_writes
  where
    then_writes : Grows 0 (arm sock reads r s) (arm sock writes r (arm sock reads r s))
    then_writes =
        if_cases (λ t. Grows 0 t (arm sock writes r t)) (not (wants r.action reads) || flag reads r)
          (λ h. arm-Grows sock writes r s e)
          (λ h. arm-Grows sock writes (set_flag reads true r) _ (
            find_socket-changed sock (set_flag reads true) (set_flag-IsChange reads true) s.sockets
              r e))

pub arm_socket-Grows : (sock : ℕ) (s : CurlMulti) → Grows 0 s (arm_socket sock s)
unfolding arm_socket
arm_socket-Grows sock s = arm_found-Grows sock (find_socket sock s.sockets) s refl
