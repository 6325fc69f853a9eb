-- ===== src/Http/Reacting.antt =====
-- What the calls of libcurl, of `OnSocketUpdate` and `TimerCallback` in src/curlmulti.cpp, keep of the waits in
-- flight.
use porla.Base.{
  ℕ, suc, ◌+◌, ◌^◌, ◌<◌, ◌≡◌, refl, sym, ◌∙◌, Bool, true, false, List, [], ◌∷◌, Option, none, some,
  if◌then◌else◌, if_both, if_cases, length, arith,
}
use porla.Http.{
  Poll, Direction, reads, writes, Socket, CurlMulti, wrap64, Reaction, socket_update, timer_update,
}
use porla.Http.Sockets.{
  flag, find_socket, erase_socket, register, set_action, update_found, is_remove, remove_socket,
  on_socket_update, timer_callback, react, react_all,
}
use porla.Http.Armed.{pending, find_socket-pending, Fits-change, Fits-erase}
use porla.Http.Waiting.{
  Grows, Grows-trans, Grows-more, wired, wired-Grows, stays, change_socket-empty, arm_socket-Grows,
}

set_action-Grows :
    (sock : ℕ) (what : Poll) (s : CurlMulti) (r : Socket)
    → find_socket sock s.sockets ≡ some r
    → Grows 0 s (set_action sock what s)
unfolding set_action
set_action-Grows sock what s r e k l a = record {
  few = omega (arith, a.few);
  fits =
      Fits-change (suc s.next_id) sock (λ x. record x { action = what })
        (record { keeps_socket = λ x. refl; keeps_id = λ x. refl }) s.sockets (pending s.waits)
        (pending s.waits) r e kept_flags (λ j i d n. refl) a.fits;
  fresh = a.fresh;
  closed = λ b. change_socket-empty sock _ s.sockets (a.closed b);
}
  where
    kept_flags :
        (d : Direction)
        → pending s.waits r.socket r.id d ≡ (if flag d (record r { action = what }) then 1 else 0)
    kept_flags reads =
        find_socket-pending (suc s.next_id) sock s.sockets (pending s.waits) r a.fits e reads
    kept_flags writes =
        find_socket-pending (suc s.next_id) sock s.sockets (pending s.waits) r a.fits e writes

wrap64-small : (n : ℕ) → n < 2 ^ 64 → wrap64 n ≡ n
wrap64-small n h = omega (arith, h)

register-Grows :
    (sock : ℕ) (what : Poll) (s : CurlMulti)
    → find_socket sock s.sockets ≡ none
    → s.is_shut ≡ false
    → Grows 1 s (register sock what s)
unfolding register
register-Grows sock what s e live k l a =
    let next : wrap64 (suc s.next_id) ≡ suc s.next_id =
      wrap64-small (suc s.next_id) (omega (arith, l, a.few)) in
    rw next (record {
      few = omega (arith, a.few);
      fits = (omega arith, e, new_flags, a.fits);
      fresh = λ j i d n. a.fresh j i d (omega (arith, n));
      closed = λ b. let t : true ≡ false = sym b ∙ live in absurd cc;
    })
  where
    new_flags :
        (d : Direction)
        → pending s.waits sock (suc s.next_id) d ≡ (
            if flag d (record {
              socket = sock;
              id = suc s.next_id;
              action = what;
              reading = false;
              writing = false;
            })
            then 1
            else 0)
    new_flags reads = a.fresh sock (suc s.next_id) reads (omega arith)
    new_flags writes = a.fresh sock (suc s.next_id) writes (omega arith)

erase_socket-empty : (sock : ℕ) (rs : List Socket) → rs ≡ [] → erase_socket sock rs ≡ []
unfolding erase_socket
erase_socket-empty sock rs e = rw e refl

remove_socket-Grows : (sock : ℕ) (s : CurlMulti) → Grows 0 s (remove_socket sock s)
unfolding remove_socket
remove_socket-Grows sock s k l a = record {
  few = omega (arith, a.few);
  fits = Fits-erase (suc s.next_id) sock s.sockets (pending s.waits) a.fits;
  fresh = a.fresh;
  closed = λ b. erase_socket-empty sock s.sockets (a.closed b);
}

update_found-Grows :
    (sock : ℕ) (what : Poll) (registers : Bool) (o : Option Socket) (s : CurlMulti)
    → find_socket sock s.sockets ≡ o
    → s.is_shut ≡ false
    → Grows 1 s (update_found sock what registers o s)
unfolding update_found
update_found-Grows sock what true none s e live =
    Grows-trans 1 0 s (register sock what s) _ (register-Grows sock what s e live)
      (arm_socket-Grows sock (register sock what s))
update_found-Grows sock what false none s e live = stays 1 s
update_found-Grows sock what registers (some r) s e live = Grows-more 0 1 s _ (omega arith) (
    Grows-trans 0 0 s (set_action sock what s) _ (set_action-Grows sock what s r e)
      (arm_socket-Grows sock (set_action sock what s)))

react-Grows : (r : Reaction) (s : CurlMulti) → Grows 1 s (react r s)
unfolding react on_socket_update timer_callback
react-Grows (timer_update none) s =
    Grows-more 0 1 s _ (omega arith)
      (wired-Grows s _ (if_both (λ t. wired t ≡ wired s) s.is_shut refl refl))
react-Grows (timer_update (some t)) s =
    Grows-more 0 1 s _ (omega arith)
      (wired-Grows s _ (if_both (λ t. wired t ≡ wired s) s.is_shut refl refl))
react-Grows (socket_update sock what registers) s =
    if_cases (Grows 1 s) s.is_shut (λ h. stays 1 s)
      (λ live.
        if_both (Grows 1 s) (is_remove what)
          (Grows-more 0 1 s _ (omega arith) (remove_socket-Grows sock s))
          (update_found-Grows sock what registers (find_socket sock s.sockets) s refl live))

pub react_all-Grows : (rs : List Reaction) (s : CurlMulti) → Grows (length rs) s (react_all rs s)
unfolding react_all
react_all-Grows [] s = wired-Grows s s refl
react_all-Grows (r ∷ rs) s =
    Grows-more (1 + length rs) (length (r ∷ rs)) s _ (omega arith)
      (Grows-trans 1 (length rs) s (react r s) _ (react-Grows r s) (react_all-Grows rs (react r s)))
