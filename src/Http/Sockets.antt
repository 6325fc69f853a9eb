-- ===== src/Http/Sockets.antt =====
-- The sockets and the timer of src/curlmulti.cpp: `OnSocketUpdate`, `ArmSocket`, `TimerCallback`.
use porla.Base.{
  ℕ, suc, Bool, true, false, not, ◌||◌, List, [], ◌∷◌, Option, none, some, if◌then◌else◌, ◌==◌,
}
use porla.Http.{
  Poll, poll_in, poll_out, poll_inout, poll_remove, Direction, reads, writes, Socket, CurlMulti,
  wrap64, Reaction, socket_update, timer_update,
}

-- `action & poll_bit`.
abbrev pub wants : Poll → Direction → Bool
wants poll_in reads = true
wants poll_out writes = true
wants poll_inout d = true
wants _ _ = false

-- The flag of a direction, and the socket with it set to a value.
abbrev pub flag : Direction → Socket → Bool
flag reads r = r.reading
flag writes r = r.writing

abbrev pub set_flag : Direction → Bool → Socket → Socket
set_flag reads b r = record r { reading = b }
set_flag writes b r = record r { writing = b }

unfoldable pub find_socket : ℕ → List Socket → Option Socket
find_socket sock [] = none
find_socket sock (r ∷ rs) = if r.socket == sock then some r else find_socket sock rs

unfoldable pub erase_socket : ℕ → List Socket → List Socket
erase_socket sock [] = []
erase_socket sock (r ∷ rs) = if r.socket == sock then rs else r ∷ erase_socket sock rs

-- The sockets after a change through the iterator or reference that a look-up has given.
unfoldable pub change_socket : ℕ → (Socket → Socket) → List Socket → List Socket
change_socket sock f [] = []
change_socket sock f (r ∷ rs) = if r.socket == sock then f r ∷ rs else r ∷ change_socket sock f rs

-- The lambda `arm` of `ArmSocket`, on the socket that has been found.
unfoldable pub arm : ℕ → Direction → Socket → CurlMulti → CurlMulti
arm sock d r s = if not (wants r.action d) || flag d r then s else record s {
  sockets = change_socket sock (set_flag d true) s.sockets;
  waits = record { socket = sock; id = r.id; direction = d } ∷ s.waits;
}

-- One direction after the other; the first changes neither the mask nor the other's flag.
unfoldable pub arm_found : ℕ → Option Socket → CurlMulti → CurlMulti
arm_found sock none s = s
arm_found sock (some r) s = arm sock writes r (arm sock reads r s)

unfoldable pub arm_socket : ℕ → CurlMulti → CurlMulti
arm_socket sock s = arm_found sock (find_socket sock s.sockets) s

-- `OnSocketUpdate` for a socket that is not registered: `dup` and `emplace`.
unfoldable pub register : ℕ → Poll → CurlMulti → CurlMulti
register sock what s = record s {
  sockets =
      record {
        socket = sock;
        id = wrap64 (suc s.next_id);
        action = what;
        reading = false;
        writing = false;
      }
      ∷ s.sockets;
  next_id = wrap64 (suc s.next_id);
}

unfoldable pub set_action : ℕ → Poll → CurlMulti → CurlMulti
set_action sock what s = record s {
  sockets = change_socket sock (λ r. record r { action = what }) s.sockets;
}

unfoldable pub update_found : ℕ → Poll → Bool → Option Socket → CurlMulti → CurlMulti
update_found sock what registers none s =
    if registers then arm_socket sock (register sock what s) else s
update_found sock what registers (some r) s = arm_socket sock (set_action sock what s)

abbrev pub is_remove : Poll → Bool
is_remove poll_remove = true
is_remove _ = false

unfoldable pub remove_socket : ℕ → CurlMulti → CurlMulti
remove_socket sock s = record s { sockets = erase_socket sock s.sockets }

unfoldable pub on_socket_update : ℕ → Poll → Bool → CurlMulti → CurlMulti
on_socket_update sock what registers s =
    if s.is_shut
    then s
    else if is_remove what
    then remove_socket sock s
    else update_found sock what registers (find_socket sock s.sockets) s

-- `TimerCallback`.
unfoldable pub timer_callback : Option ℕ → CurlMulti → CurlMulti
timer_callback none s = if s.is_shut then s else record s { generation = wrap64 (suc s.generation) }
timer_callback (some timeout) s = if s.is_shut then s else record s {
  generation = wrap64 (suc s.generation);
  timers = wrap64 (suc s.generation) ∷ s.timers;
}

unfoldable pub react : Reaction → CurlMulti → CurlMulti
react (socket_update sock what registers) s = on_socket_update sock what registers s
react (timer_update timeout) s = timer_callback timeout s

unfoldable pub react_all : List Reaction → CurlMulti → CurlMulti
react_all [] s = s
react_all (r ∷ rs) s = react_all rs (react r s)
