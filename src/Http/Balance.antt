-- ===== src/Http/Balance.antt =====
-- How often src/curlmulti.cpp calls a callback that `AddTransfer` has been given.
use porla.Base.{
  ℕ, ◌+◌, ◌≡◌, refl, sym, ap, ◌∙◌, Bool, true, false, Bool-cases, inl, inr, List, [], ◌∷◌, Option,
  none, some, if◌then◌else◌, ◌==◌, if_both, arith,
}
use porla.Http.{
  Direction, reads, writes, Socket, Poll, Code, Effect, called, cleaned, CurlMulti, Reaction,
  socket_update, timer_update, Message, done, other_message, Answer,
}
use porla.Http.Sockets.{
  find_socket, arm, arm_found, arm_socket, register, set_action, update_found, is_remove,
  remove_socket, on_socket_update, timer_callback, react, react_all,
}
use porla.Http.Transfers.{
  safe_invoke, cleanup, find_transfer, erase_transfer, conclude, finish_transfer, read_messages,
  set_checking, check_completed, set_running, socket_action,
}

-- How often a callback has been called, and how often it stands in a list of transfers.
abbrev pub calls : ℕ → List Effect → ℕ
calls c [] = 0
calls c (called k easy code ∷ es) = (if k == c then 1 else 0) + calls c es
calls c (cleaned easy ∷ es) = calls c es

abbrev pub count : ℕ → List (ℕ × ℕ) → ℕ
count c [] = 0
count c ((easy, k) ∷ ts) = (if k == c then 1 else 0) + count c ts

abbrev pub balance : ℕ → CurlMulti → ℕ
balance c s = calls c s.effects + (count c s.transfers + count c s.queued)

-- What the sockets and the timer leave as it was.
abbrev pub kept : CurlMulti → List (ℕ × ℕ) × List (ℕ × ℕ) × List Effect × Bool
kept s = (s.transfers, s.queued, s.effects, s.is_shut)

kept-arm : (sock : ℕ) (d : Direction) (r : Socket) (s : CurlMulti) → kept (arm sock d r s) ≡ kept s
unfolding arm
kept-arm sock d r s = ground arith

kept-arm_found : (sock : ℕ) (o : Option Socket) (s : CurlMulti) → kept (arm_found sock o s) ≡ kept s
unfolding arm_found
kept-arm_found sock none s = refl
kept-arm_found sock (some r) s =
    kept-arm sock writes r (arm sock reads r s) ∙ kept-arm sock reads r s

pub kept-arm_socket : (sock : ℕ) (s : CurlMulti) → kept (arm_socket sock s) ≡ kept s
unfolding arm_socket
kept-arm_socket sock s = kept-arm_found sock (find_socket sock s.sockets) s

kept-update_found :
    (sock : ℕ) (what : Poll) (registers : Bool) (o : Option Socket) (s : CurlMulti)
    → kept (update_found sock what registers o s) ≡ kept s
unfolding update_found register set_action
kept-update_found sock what true none s = kept-arm_socket sock (register sock what s)
kept-update_found sock what false none s = refl
kept-update_found sock what registers (some r) s = kept-arm_socket sock (set_action sock what s)

kept-on_socket_update :
    (sock : ℕ) (what : Poll) (registers : Bool) (s : CurlMulti)
    → kept (on_socket_update sock what registers s) ≡ kept s
unfolding on_socket_update remove_socket
kept-on_socket_update sock what registers s =
    if_both (λ t. kept t ≡ kept s) s.is_shut refl
      (if_both (λ t. kept t ≡ kept s) (is_remove what) refl
        (kept-update_found sock what registers (find_socket sock s.sockets) s))

kept-react : (r : Reaction) (s : CurlMulti) → kept (react r s) ≡ kept s
unfolding react timer_callback
kept-react (socket_update sock what registers) s = kept-on_socket_update sock what registers s
kept-react (timer_update none) s = ground arith
kept-react (timer_update (some timeout)) s = ground arith

kept-react_all : (rs : List Reaction) (s : CurlMulti) → kept (react_all rs s) ≡ kept s
unfolding react_all
kept-react_all [] s = refl
kept-react_all (r ∷ rs) s = kept-react_all rs (react r s) ∙ kept-react r s

-- The calls that are made and those that are due come to the same before and after; and once the client is
-- shut, it has no transfer.
pub record Keeps (c : ℕ) (s t : CurlMulti) : Type 0 where
  pub same : balance c t ≡ balance c s
  pub empty : (s.is_shut ≡ true → s.transfers ≡ []) → t.is_shut ≡ true → t.transfers ≡ []

pub Keeps-refl : (c : ℕ) (s : CurlMulti) → Keeps c s s
Keeps-refl c s = record { same = refl; empty = λ h. h }

pub Keeps-trans : (c : ℕ) {s t u : CurlMulti} → Keeps c s t → Keeps c t u → Keeps c s u
Keeps-trans c h k = record { same = k.same ∙ h.same; empty = λ e. k.empty (h.empty e) }

pub kept-Keeps : (c : ℕ) (s t : CurlMulti) → kept t ≡ kept s → Keeps c s t
kept-Keeps c s t e = record {
  same = ap (λ k. calls c k.2 + (count c k.0 + count c k.1)) e;
  empty = λ h b. ap (λ k. k.0) e ∙ h (sym (ap (λ k. k.3) e) ∙ b);
}

abbrev pub due : ℕ → Option ℕ → ℕ
due c none = 0
due c (some k) = if k == c then 1 else 0

count-erase_transfer :
    (c easy : ℕ) (ts : List (ℕ × ℕ))
    → count c ts ≡ due c (find_transfer easy ts) + count c (erase_transfer easy ts)
unfolding find_transfer erase_transfer
count-erase_transfer c easy [] = refl
count-erase_transfer c easy ((j, l) ∷ ts) = elim (Bool-cases (j == easy)) [
  | inl h ↦ rw h refl
  | inr h ↦ rw h (omega (arith, count-erase_transfer c easy ts))
]

erase_transfer-empty : (easy : ℕ) (ts : List (ℕ × ℕ)) → ts ≡ [] → erase_transfer easy ts ≡ []
unfolding erase_transfer
erase_transfer-empty easy ts e = rw e refl

-- A callback is called, and a handle cleaned up, with nothing else of the transfers changed.
pub invoked :
    (c easy : ℕ) (code : Code) (o : Option ℕ) (s : CurlMulti)
    → balance c (cleanup easy (safe_invoke o easy code s)) ≡ due c o + balance c s
unfolding cleanup safe_invoke
invoked c easy code none s = omega arith
invoked c easy code (some k) s = omega arith

abbrev pub ends : CurlMulti → Bool × List (ℕ × ℕ)
ends s = (s.is_shut, s.transfers)

pub invoked_empty :
    (easy : ℕ) (code : Code) (o : Option ℕ) (s : CurlMulti)
    → ends (cleanup easy (safe_invoke o easy code s)) ≡ ends s
unfolding cleanup safe_invoke
invoked_empty easy code none s = refl
invoked_empty easy code (some k) s = refl

pub conclude-Keeps : (c easy : ℕ) (code : Code) (s : CurlMulti) → Keeps c s (conclude easy code s)
unfolding conclude
conclude-Keeps c easy code s = record {
  same = omega (
    arith,
    invoked c easy code (find_transfer easy s.transfers) rest,
    count-erase_transfer c easy s.transfers,
  );
  empty = λ h b.
      ap (λ k. k.1) (invoked_empty easy code (find_transfer easy s.transfers) rest)
      ∙ erase_transfer-empty easy s.transfers (
          h (
            sym (ap (λ k. k.0) (invoked_empty easy code (find_transfer easy s.transfers) rest))
            ∙ b));
}
  where
    rest : CurlMulti
    rest = record s { transfers = erase_transfer easy s.transfers }

pub react_all-Keeps : (c : ℕ) (rs : List Reaction) (s : CurlMulti) → Keeps c s (react_all rs s)
react_all-Keeps c rs s = kept-Keeps c s (react_all rs s) (kept-react_all rs s)

pub finish_transfer-Keeps :
    (c easy : ℕ) (code : Code) (rs : List Reaction) (s : CurlMulti)
    → Keeps c s (finish_transfer easy code rs s)
unfolding finish_transfer
finish_transfer-Keeps c easy code rs s =
    Keeps-trans c (react_all-Keeps c rs s) (conclude-Keeps c easy code (react_all rs s))

read_messages-Keeps : (c : ℕ) (ms : List Message) (s : CurlMulti) → Keeps c s (read_messages ms s)
unfolding read_messages
read_messages-Keeps c [] s = Keeps-refl c s
read_messages-Keeps c (other_message ∷ ms) s = read_messages-Keeps c ms s
read_messages-Keeps c (done easy code rs ∷ ms) s =
    Keeps-trans c (finish_transfer-Keeps c easy code rs s)
      (read_messages-Keeps c ms (finish_transfer easy code rs s))

check_completed-Keeps :
    (c : ℕ) (ms : List Message) (s : CurlMulti) → Keeps c s (check_completed ms s)
unfolding check_completed set_checking
check_completed-Keeps c ms s = if_both (Keeps c s) s.is_checking (Keeps-refl c s) (
    Keeps-trans c (kept-Keeps c s (set_checking true s) refl)
      (Keeps-trans c (read_messages-Keeps c ms (set_checking true s)) (kept-Keeps c _ _ refl)))

pub socket_action-Keeps : (c : ℕ) (a : Answer) (s : CurlMulti) → Keeps c s (socket_action a s)
unfolding socket_action set_running
socket_action-Keeps c a s = Keeps-trans c (react_all-Keeps c a.reactions s) (
    Keeps-trans c (kept-Keeps c _ (set_running a.running (react_all a.reactions s)) refl)
      (check_completed-Keeps c a.messages _))
