-- ===== src/Examples/RpcRuns.antt =====
-- src/auth/authenticator.cpp, src/rpc/jsonrpc.cpp and src/rpc/functionmethod.hpp with a toy library, in which
-- every text is a request for the method "echo".
use porla.Base.{
  ℕ, zero, suc, some-injective, sym, ◌∙◌, subst, Bool-cases, ◌+◌, ◌≤◌, ◌≡◌, ◌≢◌, refl, Bool, true,
  false, List, [], ◌∷◌, ◌++◌, Option, none, some, inl, inr, Bytes, codes, bytes_eq, if◌then◌else◌,
  length, arith, take,
}
use porla.Tokens.{new_token, Token, Table, Kind}
use porla.Auth.{Context, Origin, anon, machine, anonymous, Headers, authenticate}
use porla.Auth.Granting.{Granted, authenticate-Granted}
use porla.Rpc.{Library, Part, Call}
use porla.Rpc.Handler.{Opened, Entry, cut_agent, allows_caller}
use porla.Rpc.Methods.{Function, Outcome, Decoded, invoke_function}
use porla.Rpc.Exchange.{Exchange, Event, fresh, step, Run, here, next}
use porla.Rpc.Once.{ends, ends-fresh}
use porla.Rpc.Silence.{Run-silent}
use porla.Rpc.Answers.{all_calls, later_body, IsAnswering, IsReplying, ends-on_data}
use porla.Rpc.Replies.{
  reply_count, reply_count-invoke_function, function_entry, function_entry-IsReplying,
}
use porla.Rpc.Agents.{Characters, done, ascii, wide, cut_agent-Characters}
use porla.Rpc.Permission.{unallowed, step-Alike}
use porla.Examples.TokenRuns.{toy, one_token, id_bytes, secret_bytes}

-- A JSON value is its text; objects are the only values that are not strings.
abbrev toy_json : Library
toy_json = record {
  Json = Bytes;
  null = [];
  integer = λ n. codes "0";
  text = λ s. s;
  object = λ members. codes "{}";
  is_null = bytes_eq [];
  is_number = λ v. false;
  as_string = λ v. some v;
  is_object = bytes_eq (codes "{}");
  find = λ key v. if bytes_eq key (codes "method") then some (codes "echo") else some key;
  set = λ key v o. o;
  parse = λ s. inr (codes "{}");
  dump = λ v. v;
  gzip = λ s. none;
}

-- A function that sets a header and returns its request.
abbrev echo : Function toy_json
echo = record {
  Req = Bytes;
  is_raw = true;
  decode = Decoded.decoded;
  run = λ ctx req. ((codes "X-Echo", codes "1") ∷ [], Outcome.returns req);
}

abbrev echo_entry : Entry toy_json
echo_entry = function_entry toy_json echo (anon ∷ [])

abbrev echo_methods : Bytes → Option (Entry toy_json)
echo_methods name = if bytes_eq name (codes "echo") then some echo_entry else none

abbrev caller : Opened
caller = record { caller = anonymous; accepts_gzip = true }

abbrev start : Exchange toy_json
start = fresh toy_json

reply_count-invoke_function_example :
    reply_count toy_json (all_calls toy_json (invoke_function toy_json echo anonymous (codes "x")))
    ≡ 1
reply_count-invoke_function_example =
    reply_count-invoke_function toy_json echo anonymous (codes "x")

echo_methods-IsAnswering : IsAnswering toy_json echo_methods caller
echo_methods-IsAnswering name method e = elim (Bool-cases (bytes_eq name (codes "echo"))) [
  | inl h ↦
      let same : echo_entry ≡ method = some-injective (sym (rw h refl) ∙ e) in
      subst (IsReplying toy_json) same (function_entry-IsReplying toy_json echo (anon ∷ []))
  | inr h ↦ absurd (ground (arith, h, e))
]

ends-on_data_example :
    let first = step toy_json echo_methods caller (Event.received (codes "{}") true) start in
    let second =
      step toy_json echo_methods caller
        (Event.called (later_body toy_json echo_methods caller (inr (codes "{}"))))
        first.0 in
    ends first.1 + ends second.1 ≡ 1
ends-on_data_example =
    ends-on_data toy_json echo_methods caller start (codes "{}") echo_methods-IsAnswering refl refl
      (omega arith)

-- A method that replies twice.
abbrev twice : List (Call toy_json)
twice = Call.ok (codes "a") ∷ Call.ok (codes "b") ∷ []

abbrev after : Event toy_json → Exchange toy_json → Exchange toy_json
after e x = (step toy_json echo_methods caller e x).0

abbrev sent : Event toy_json → Exchange toy_json → List Part
sent e x = (step toy_json echo_methods caller e x).1

abbrev request : Event toy_json
request = Event.received (codes "{}") true

abbrev served : Exchange toy_json
served = after request start

served-Run : Run toy_json echo_methods caller start ([] ++ sent request start) served
served-Run = next here request refl

ends-fresh_example : ends (([] ++ sent request start) ++ sent (Event.called twice) served) ≤ 1
ends-fresh_example =
    ends-fresh toy_json echo_methods caller (next served-Run (Event.called twice) tt)

gone-Run :
    Run toy_json echo_methods caller start
      (([] ++ sent request start) ++ sent Event.disconnected served)
      (after Event.disconnected served)
gone-Run = next served-Run Event.disconnected tt

Run-silent_example : [] ++ sent (Event.called twice) (after Event.disconnected served) ≡ []
unfolding step
Run-silent_example =
    Run-silent toy_json echo_methods caller gone-Run refl (next here (Event.called twice) tt)

-- 511 letters and a character of two bytes.
abbrev long_agent : ℕ → Bytes
long_agent zero = 195 ∷ (169 ∷ []) ++ []
long_agent (suc n) = b'a' ∷ long_agent n

long_agent-Characters : (n : ℕ) → Characters (long_agent n)
long_agent-Characters zero =
    wide (169 ∷ []) (omega arith) refl ((omega arith, omega arith), tt) done
long_agent-Characters (suc n) = ascii (omega arith) (long_agent-Characters n)

cut_agent-Characters_example : Characters (cut_agent (long_agent 511))
cut_agent-Characters_example = cut_agent-Characters (long_agent 511) (long_agent-Characters 511)

-- A method for machines only, which does one thing or the other.
abbrev machines_only : Bytes → Bytes → Option (Entry toy_json)
machines_only result name = some (record {
  kinds = machine ∷ [];
  can_invoke = λ _. inr true;
  invoke = λ _ _. record { calls = Call.ok result ∷ []; thrown = none; later = [] };
})

step-Alike_example :
    step toy_json (machines_only (codes "a")) caller request start
    ≡ step toy_json (machines_only (codes "b")) caller request start
unfolding allows_caller
step-Alike_example =
    step-Alike toy_json (machines_only (codes "a")) (machines_only (codes "b")) caller
      (λ name. unallowed refl refl) request start

abbrev with_key : Headers
with_key name =
    if bytes_eq name (codes "authorization")
    then codes "Bearer " ++ (new_token toy id_bytes secret_bytes).token
    else []

abbrev nobody : ℕ → Option Bytes
nobody user_id = none

with_key-machine : ((authenticate toy nobody true true 900 with_key one_token).1).kind ≡ machine
unfolding authenticate porla.Auth.with_token porla.Auth.bearer_token porla.Auth.find_header bytes_eq
    porla.Auth.with_row porla.Tokens.verify porla.Tokens.is_well_formed porla.Auth.without_bearer
    new_token porla.Text.to_lower porla.Base.to_lower_byte porla.Base.strip_prefix
    porla.Tokens.check_secret porla.Tokens.check_row porla.Tokens.new_row porla.Tokens.use_row
    porla.Auth.context_of porla.Tokens.touch
with_key-machine = refl

authenticate-Granted_example :
    Granted toy nobody 900 with_key one_token
      ((authenticate toy nobody true true 900 with_key one_token).1)
authenticate-Granted_example =
    authenticate-Granted toy nobody true 900 one_token true with_key
      (λ e. absurd (ground (arith, with_key-machine, e)))
