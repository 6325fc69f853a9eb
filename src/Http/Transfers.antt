-- ===== src/Http/Transfers.antt =====
-- The transfers of src/curlmulti.cpp: how they are added, finished and cancelled, and `Shutdown`.
use porla.Base.{
  ℕ, suc, Bool, true, false, List, [], ◌∷◌, Option, none, some, if◌then◌else◌, ◌==◌, is_some,
}
use porla.Http.{
  Code, aborted_by_callback, failed_init, called, cleaned, CurlMulti, wrap64, Reaction, Message,
  done, other_message, Answer,
}
use porla.Http.Sockets.{react_all}

-- `SafeInvoke`: what the callback throws is logged.
unfoldable pub safe_invoke : Option ℕ → ℕ → Code → CurlMulti → CurlMulti
safe_invoke none easy code s = s
safe_invoke (some callback) easy code s = record s {
  effects = called callback easy code ∷ s.effects;
}

unfoldable pub cleanup : ℕ → CurlMulti → CurlMulti
cleanup easy s = record s { effects = cleaned easy ∷ s.effects }

-- `m_transfers.find`, and the transfers without what it finds.
unfoldable pub find_transfer : ℕ → List (ℕ × ℕ) → Option ℕ
find_transfer easy [] = none
find_transfer easy ((e, c) ∷ ts) = if e == easy then some c else find_transfer easy ts

unfoldable pub erase_transfer : ℕ → List (ℕ × ℕ) → List (ℕ × ℕ)
erase_transfer easy [] = []
erase_transfer easy ((e, c) ∷ ts) = if e == easy then ts else (e, c) ∷ erase_transfer easy ts

-- The erasure, the call and the cleaning that `FinishTransfer` and a refused handle have in common.
unfoldable pub conclude : ℕ → Code → CurlMulti → CurlMulti
conclude easy code s = cleanup easy (
    safe_invoke (find_transfer easy s.transfers) easy code
      (record s { transfers = erase_transfer easy s.transfers }))

unfoldable pub finish_transfer : ℕ → Code → List Reaction → CurlMulti → CurlMulti
finish_transfer easy code reactions s = conclude easy code (react_all reactions s)

-- The loop of `CheckCompleted`.
unfoldable pub read_messages : List Message → CurlMulti → CurlMulti
read_messages [] s = s
read_messages (other_message ∷ ms) s = read_messages ms s
read_messages (done easy code reactions ∷ ms) s =
    read_messages ms (finish_transfer easy code reactions s)

unfoldable pub set_checking : Bool → CurlMulti → CurlMulti
set_checking b s = record s { is_checking = b }

unfoldable pub check_completed : List Message → CurlMulti → CurlMulti
check_completed ms s =
    if s.is_checking then s else set_checking false (read_messages ms (set_checking true s))

unfoldable pub set_running : ℕ → CurlMulti → CurlMulti
set_running n s = record s { running = n }

unfoldable pub socket_action : Answer → CurlMulti → CurlMulti
socket_action a s = check_completed a.messages (set_running a.running (react_all a.reactions s))

-- `DoAddTransfer`; libcurl accepts the handle or not, and makes calls as it is added.
unfoldable pub emplace : ℕ → ℕ → CurlMulti → CurlMulti
emplace easy callback s = record s { transfers = (easy, callback) ∷ s.transfers }

unfoldable pub do_add_transfer : ℕ → ℕ → Bool → List Reaction → Answer → CurlMulti → CurlMulti
do_add_transfer easy callback accepted reactions a s =
    if s.is_shut
    then cleanup easy (safe_invoke (some callback) easy aborted_by_callback s)
    else if is_some (find_transfer easy s.transfers)
    then safe_invoke (some callback) easy failed_init s
    else if accepted
    then socket_action a (react_all reactions (emplace easy callback s))
    else conclude easy failed_init (react_all reactions (emplace easy callback s))

-- `CancelTransfer`, once it runs.
unfoldable pub cancel_transfer : ℕ → List Reaction → CurlMulti → CurlMulti
cancel_transfer easy reactions s =
    if s.is_shut
    then s
    else if is_some (find_transfer easy s.transfers)
    then finish_transfer easy aborted_by_callback reactions s
    else s

-- The loop of `Shutdown` over the transfers that it has taken.
unfoldable pub abort_all : List (ℕ × ℕ) → CurlMulti → CurlMulti
abort_all [] s = s
abort_all ((easy, callback) ∷ ts) s =
    abort_all ts (cleanup easy (safe_invoke (some callback) easy aborted_by_callback s))

unfoldable pub detach_all : CurlMulti → CurlMulti
detach_all s = record s { is_shut = true; generation = wrap64 (suc s.generation); transfers = [] }

unfoldable pub clear_sockets : CurlMulti → CurlMulti
clear_sockets s = record s { sockets = [] }

unfoldable pub shutdown : CurlMulti → CurlMulti
shutdown s = if s.is_shut then s else clear_sockets (abort_all s.transfers (detach_all s))
