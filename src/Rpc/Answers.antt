-- ===== src/Rpc/Answers.antt =====
-- Every complete request of src/rpc/jsonrpc.cpp is answered, if its method replies at some time.
use porla.Base.{
  ℕ, ◌+◌, ◌≤◌, ◌≡◌, refl, Bool, true, false, not, ◌&&◌, ◌||◌, ◌⊎◌, Bool-cases, inl, inr, List, [],
  ◌∷◌, ◌++◌, Option, none, some, Bytes, codes, arith, leb_iff, length, any_of, starts_with,
}
use porla.Auth.{Context}
use porla.Rpc.Errors.{Code}
use porla.Rpc.{Library, Part, Call, Writer, write, write_all, error_of}
use porla.Rpc.Handler.{
  Opened, Invoked, Entry, max_body, value_or, method_name, method_calls, thrown_calls, fail,
  found_id, id_ok, reply_id, string_at, allows_caller, checked_calls,
}
use porla.Rpc.Exchange.{
  Exchange, Event, run_method, run_named, run_body, run_request, on_data, on_called, step,
}
use porla.Rpc.Once.{ends, ends-write_all}

module _ (lib : Library) where
  abbrev pub is_reply : Call lib → Bool
  is_reply (Call.error code message extra) = true
  is_reply (Call.header key value) = false
  is_reply (Call.ok result) = true

  abbrev pub has_reply : List (Call lib) → Bool
  has_reply = any_of is_reply

  -- All that a method calls, until its work has ended.
  abbrev pub all_calls : Invoked lib → List (Call lib)
  all_calls r = (r.calls ++ thrown_calls lib r.thrown) ++ r.later

  -- A method that replies, or throws, at some time.
  abbrev pub IsReplying : Entry lib → Type 0
  IsReplying method =
      (ctx : Context) (params : lib.Json) → has_reply (all_calls (method.invoke ctx params)) ≡ true

  has_reply-append :
      (cs ds : List (Call lib)) → has_reply (cs ++ ds) ≡ (has_reply cs || has_reply ds)
  has_reply-append [] ds = refl
  has_reply-append (c ∷ cs) ds = ground (arith, has_reply-append cs ds)

  write_all-append :
      (aborted : Bool) (cs ds : List (Call lib)) (w : Writer lib)
      → (write_all lib aborted (cs ++ ds) w).0
        ≡ (write_all lib aborted ds ((write_all lib aborted cs w).0)).0
  unfolding write_all
  write_all-append aborted [] ds w = refl
  write_all-append aborted (c ∷ cs) ds w =
      write_all-append aborted cs ds ((write lib aborted c w).0)

  write-responded :
      (c : Call lib) (w : Writer lib)
      → (w.responded || is_reply c) ≡ ((write lib false c w).0).responded
  unfolding write
  write-responded (Call.error code message extra) w = ground arith
  write-responded (Call.header key value) w = ground arith
  write-responded (Call.ok result) w = ground arith

  -- A writer has responded once a reply is among its calls.
  write_all-responded :
      (cs : List (Call lib)) (w : Writer lib)
      → (w.responded || has_reply cs) ≡ ((write_all lib false cs w).0).responded
  unfolding write_all
  write_all-responded [] w = ground arith
  write_all-responded (c ∷ cs) w =
      ground (arith, write-responded c w, write_all-responded cs ((write lib false c w).0))

  ends-reply :
      (cs ds : List (Call lib)) (w : Writer lib)
      → w.responded ≡ false
      → has_reply (cs ++ ds) ≡ true
      → ends ((write_all lib false cs w).1)
          + ends ((write_all lib false ds ((write_all lib false cs w).0)).1)
        ≡ 1
  ends-reply cs ds w e h =
      let a : Writer lib × List Part = write_all lib false cs w in
      let b : Writer lib × List Part = write_all lib false ds a.0 in
      let t : (b.0).responded ≡ true = ground (
        arith,
        h,
        e,
        has_reply-append cs ds,
        write_all-responded cs w,
        write_all-responded ds a.0,
      ) in
      ground (arith, e, t, ends-write_all lib false cs w, ends-write_all lib false ds a.0)

  checked_calls-reply :
      (o : Bytes ⊎ Bool) (r : Invoked lib)
      → has_reply (all_calls r) ≡ true
      → has_reply (checked_calls lib o r ++ r.later) ≡ true
  unfolding checked_calls error_of
  checked_calls-reply (inl what) r h = refl
  checked_calls-reply (inr false) r h = refl
  checked_calls-reply (inr true) r h = h

  method_calls-reply :
      (method : Entry lib) (ctx : Context) (params : lib.Json)
      → IsReplying method
      → has_reply (method_calls lib method ctx params ++ (method.invoke ctx params).later) ≡ true
  unfolding method_calls error_of
  method_calls-reply method ctx params r = elim (Bool-cases (allows_caller lib method ctx)) [
    | inl h ↦ rw h (checked_calls-reply (method.can_invoke ctx) _ (r ctx params))
    | inr h ↦ rw h refl
  ]

  ends-fail :
      (id : lib.Json) (code : Code) (detail : Bytes) → ends (fail lib false id code detail) ≡ 1
  unfolding fail write error_of
  ends-fail id code detail = refl

  module _ (methods : Bytes → Option (Entry lib)) (request : Opened) where
    -- The calls that the method of a request makes after the handler has returned.
    abbrev pub later_of : Option (Entry lib) → Option lib.Json → List (Call lib)
    later_of none params = []
    later_of (some method) params = (method.invoke request.caller (value_or lib params)).later

    abbrev pub later_named : lib.Json → Bytes ⊎ Bytes → List (Call lib)
    later_named body (inl detail) = []
    later_named body (inr name) = later_of (methods name) (lib.find (codes "params") body)

    abbrev pub later_body : Bytes ⊎ lib.Json → List (Call lib)
    later_body (inl what) = []
    later_body (inr body) = later_named body (
        method_name lib (id_ok lib (found_id lib body)) (string_at lib (codes "jsonrpc") body)
          (string_at lib (codes "method") body))

    abbrev pub IsAnswering : Type 0
    IsAnswering =
        (name : Bytes) (method : Entry lib) → methods name ≡ some method → IsReplying method

    -- The replies that a writer which is kept, if any, still sends.
    abbrev still : Option (Writer lib) → List (Call lib) → ℕ
    still none calls = 0
    still (some w) calls = ends ((write_all lib false calls w).1)

    run_method-Answered :
        (id : lib.Json) (name : Bytes) (o : Option (Entry lib)) (params : Option lib.Json)
        → ((method : Entry lib) → o ≡ some method → IsReplying method)
        → let r = run_method lib methods request false id name o params in
          ends r.1 + still r.0 (later_of o params) ≡ 1
    unfolding run_method
    run_method-Answered id name none params r = omega (arith, ends-fail id Code.method_not_found [])
    run_method-Answered id name (some method) params r =
        ends-reply (method_calls lib method request.caller (value_or lib params))
          (later_of (some method) params)
          (record {
            id = id;
            responded = false;
            gzip = request.accepts_gzip && not (starts_with (codes "auth.") name);
          })
          refl (method_calls-reply method request.caller (value_or lib params) (r method refl))

    run_named-Answered :
        (body : lib.Json) (o : Bytes ⊎ Bytes)
        → IsAnswering
        → let r = run_named lib methods request false body o in
          ends r.1 + still r.0 (later_named body o) ≡ 1
    unfolding run_named
    run_named-Answered body (inl detail) r =
        omega (arith, ends-fail (reply_id lib body) Code.invalid_request detail)
    run_named-Answered body (inr name) r =
        run_method-Answered (reply_id lib body) name (methods name) (lib.find (codes "params") body)
          (r name)

    run_body-Answered :
        (o : Bytes ⊎ lib.Json)
        → IsAnswering
        → let r = run_body lib methods request false o in ends r.1 + still r.0 (later_body o) ≡ 1
    unfolding run_body
    run_body-Answered (inl what) r = omega (arith, ends-fail lib.null Code.parse_error what)
    run_body-Answered (inr body) r = run_named-Answered body _ r

    on_called-still :
        (x : Exchange lib) (calls : List (Call lib)) (o : Option (Writer lib))
        → x.aborted ≡ false
        → ends ((on_called lib methods request x calls o).1) ≡ still o calls
    unfolding on_called
    on_called-still x calls none a = refl
    on_called-still x calls (some w) a = rw a refl

    -- The last part of a body of at most 8 MiB, and then the calls by which the method's work ends, are
    -- answered by exactly one reply, if every method replies or throws at some time.
    pub ends-on_data :
        (x : Exchange lib) (part : Bytes)
        → IsAnswering
        → x.alive ≡ true
        → x.aborted ≡ false
        → length x.buffer + length part ≤ max_body
        → let first = step lib methods request (Event.received part true) x in
          let second =
            step lib methods request
              (Event.called (later_body (lib.parse (x.buffer ++ part))))
              first.0 in
          ends first.1 + ends second.1 ≡ 1
    unfolding step on_data run_request
    ends-on_data x part r v a h =
        let body : Bytes = x.buffer ++ part in
        let answer : Option (Writer lib) × List Part =
          run_body lib methods request false (lib.parse body) in
        let served : Exchange lib = record {
          alive = true;
          aborted = false;
          receiving = false;
          buffer = body;
          writer = answer.0;
        } in
        rw ((leb_iff (length x.buffer + length part) max_body).1 h, v, a)
          (omega (
            arith,
            on_called-still served (later_body (lib.parse body)) answer.0 refl,
            run_body-Answered (lib.parse body) r,
          ))
