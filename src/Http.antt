-- ===== src/Http.antt =====
-- src/curlmulti.cpp: the HTTP client, which drives libcurl's multi interface from the event loop. What libcurl
-- does within a call (the callbacks that it makes, the messages that it leaves) and what the kernel
-- answers are arguments; the handlers that wait in the event loop are lists of the state.
pub mod Sockets
pub mod Transfers
pub mod Events
pub mod Balance
pub mod Answered
pub mod Armed
pub mod Waiting
pub mod Reacting
pub mod Flight
pub mod Ending
pub mod Stepping
pub mod Body
use porla.Base.{ℕ, zero, suc, ◌+◌, ◌%◌, ◌^◌, Bool, true, false, List, [], ◌∷◌, Option, none, some}

-- `CURL_POLL_*`, the mask that libcurl asks for a socket.
pub data Poll : Type 0 where
  poll_none poll_in poll_out poll_inout poll_remove : Poll

pub data Direction : Type 0 where
  reads writes : Direction

-- `CURLcode`, as far as the code tells its values apart.
pub data Code : Type 0 where
  ok aborted_by_callback failed_init : Code
  other : ℕ → Code

-- `SocketState`.
pub record Socket : Type 0 where
  pub socket : ℕ
  pub id : ℕ  -- uint64
  pub action : Poll
  pub reading : Bool
  pub writing : Bool

-- An `async_wait` that is in flight, with what its handler has captured.
pub record Wait : Type 0 where
  pub socket : ℕ
  pub id : ℕ
  pub direction : Direction

-- A callback that is called with its handle, and a handle that is cleaned up.
pub data Effect : Type 0 where
  called : ℕ → ℕ → Code → Effect
  cleaned : ℕ → Effect

-- `CurlMulti`: its transfers are pairs of a handle and a callback. The handlers that the event loop still
-- holds are those of `AddTransfer`, of `async_wait`, of the posted `DriveSocket` and of the timer.
pub record CurlMulti : Type 0 where
  pub transfers : List (ℕ × ℕ)
  pub sockets : List Socket
  pub generation : ℕ  -- uint64
  pub next_id : ℕ  -- uint64
  pub running : ℕ
  pub is_shut : Bool
  pub is_checking : Bool
  pub queued : List (ℕ × ℕ)
  pub waits : List Wait
  pub drives : List ℕ
  pub timers : List ℕ
  pub effects : List Effect

-- The constructor.
abbrev pub new_multi : CurlMulti
new_multi = record {
  transfers = [];
  sockets = [];
  generation = 0;
  next_id = 0;
  running = 0;
  is_shut = false;
  is_checking = false;
  queued = [];
  waits = [];
  drives = [];
  timers = [];
  effects = [];
}

abbrev pub wrap64 : ℕ → ℕ
wrap64 n = n % 2 ^ 64

-- A call that libcurl makes: of `SocketCallback`, with whether the socket could be duplicated and
-- registered, or of `TimerCallback`, with no timeout where `timeout_ms` is negative.
pub data Reaction : Type 0 where
  socket_update : ℕ → Poll → Bool → Reaction
  timer_update : Option ℕ → Reaction

-- A message that libcurl has left: `CURLMSG_DONE` for a handle, with the calls that its removal makes.
pub data Message : Type 0 where
  done : ℕ → Code → List Reaction → Message
  other_message : Message

-- What comes of `curl_multi_socket_action`: calls, the handles that run, and messages.
pub record Answer : Type 0 where
  pub reactions : List Reaction
  pub running : ℕ
  pub messages : List Message

-- How a wait ends.
pub data Ended : Type 0 where
  ready aborted failed : Ended
