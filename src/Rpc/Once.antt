-- ===== src/Rpc/Once.antt =====
-- How often a request of src/rpc/jsonrpc.cpp is answered, whatever its method does.
use porla.Base.{
  ◌⊎◌, sym, subst, codes, starts_with, not, ◌&&◌, ℕ, ◌+◌, ◌≤◌, ◌≡◌, refl, Bool, true, false,
  Bool-cases, inl, inr, List, [], ◌∷◌, ◌++◌, Option, none, some, Bytes, is_empty, if◌then◌else◌,
  arith, leb, length,
}
use porla.Rpc.Errors.{Code}
use porla.Rpc.{
  Library, Part, Call, Writer, write, write_all, ok_parts, compressed, result_body, error_of,
}
use porla.Rpc.Handler.{max_body, value_or, Opened, Entry, with_detail, fail, method_calls}
use porla.Rpc.Exchange.{
  Exchange, Event, fresh, run_method, run_named, run_body, run_request, on_data, on_called, step,
  MayOccur, Run, here, next,
}

-- How many replies end among some parts.
abbrev pub ends : List Part → ℕ
ends [] = 0
ends (Part.status s ∷ parts) = ends parts
ends (Part.header k v ∷ parts) = ends parts
ends (Part.end body close ∷ parts) = 1 + ends parts

pub ends-append : (ps qs : List Part) → ends (ps ++ qs) ≡ ends ps + ends qs
ends-append [] qs = omega arith
ends-append (Part.status s ∷ ps) qs = ends-append ps qs
ends-append (Part.header k v ∷ ps) qs = ends-append ps qs
ends-append (Part.end body close ∷ ps) qs = omega (arith, ends-append ps qs)

module _ (lib : Library) where
  abbrev pub replies : Writer lib → ℕ
  replies w = elim w.responded [ true ↦ 1 | false ↦ 0 ]

  ends-compressed : (body : Bytes) (o : Option Bytes) → ends (compressed lib body o) ≡ 1
  unfolding compressed
  ends-compressed body none = refl
  ends-compressed body (some gzipped) = refl

  ends-ok_parts : (gzip : Bool) (body : Bytes) → ends (ok_parts lib gzip body) ≡ 1
  unfolding ok_parts
  ends-ok_parts gzip body = ground (arith, ends-compressed body (lib.gzip body))

  -- A writer counts the replies that it ends.
  pub ends-write :
      (aborted : Bool) (call : Call lib) (w : Writer lib)
      → replies w + ends ((write lib aborted call w).1) ≡ replies ((write lib aborted call w).0)
  unfolding write
  ends-write aborted (Call.error code message extra) w = ground arith
  ends-write aborted (Call.header key value) w = ground arith
  ends-write aborted (Call.ok result) w =
      ground (arith, ends-ok_parts w.gzip (result_body lib w.id result))

  pub ends-write_all :
      (aborted : Bool) (calls : List (Call lib)) (w : Writer lib)
      → replies w + ends ((write_all lib aborted calls w).1)
        ≡ replies ((write_all lib aborted calls w).0)
  unfolding write_all
  ends-write_all aborted [] w = omega arith
  ends-write_all aborted (call ∷ calls) w = omega (
    arith,
    ends-write aborted call w,
    ends-write_all aborted calls ((write lib aborted call w).0),
    ends-append ((write lib aborted call w).1)
        ((write_all lib aborted calls ((write lib aborted call w).0)).1),
  )

  -- The replies that a writer has ended, or could not end any more.
  abbrev pub Ledger : Option (Writer lib) → Bool → ℕ → Type 0
  Ledger none true k = k ≡ 0
  Ledger none false k = k ≤ 1
  Ledger (some w) true k = ⊥
  Ledger (some w) false k = k ≡ replies w

  replies-bound : (w : Writer lib) → replies w ≤ 1
  replies-bound w = ground arith

  ends-fail :
      (aborted : Bool) (id : lib.Json) (code : Code) (detail : Bytes)
      → ends (fail lib aborted id code detail) ≤ 1
  unfolding fail
  ends-fail aborted id code detail =
      omega (arith, ends-write aborted call new, replies-bound ((write lib aborted call new).0))
    where
      new : Writer lib
      new = record { id = id; responded = false; gzip = false }

      call : Call lib
      call =
          error_of lib code [] (if is_empty detail then lib.object [] else with_detail lib detail)

  called-count :
      (k : ℕ) (w : Writer lib) (calls : List (Call lib)) (aborted : Bool)
      → k ≡ replies w
      → k + ends ((write_all lib aborted calls w).1) ≡ replies ((write_all lib aborted calls w).0)
  called-count k w calls aborted e = omega (arith, e, ends-write_all aborted calls w)

  Ledger-idle : (o : Option (Writer lib)) (b : Bool) (k : ℕ) → Ledger o b k → Ledger o b (k + 0)
  Ledger-idle none true k l = omega arith
  Ledger-idle none false k l = omega arith
  Ledger-idle (some w) true k l = l
  Ledger-idle (some w) false k l = omega arith

  Ledger-cut : (o : Option (Writer lib)) (b : Bool) (k : ℕ) → Ledger o b k → Ledger o false (k + 0)
  Ledger-cut none true k l = omega arith
  Ledger-cut none false k l = omega arith
  Ledger-cut (some w) true k l = absurd l
  Ledger-cut (some w) false k l = omega arith

  Ledger-receiving : (o : Option (Writer lib)) (k : ℕ) → Ledger o true k → (o ≡ none) × (k ≡ 0)
  Ledger-receiving none k l = (refl, l)
  Ledger-receiving (some w) k l = absurd l

  Ledger-bound : (o : Option (Writer lib)) (b : Bool) (k : ℕ) → Ledger o b k → k ≤ 1
  Ledger-bound none true k l = omega arith
  Ledger-bound none false k l = l
  Ledger-bound (some w) true k l = absurd l
  Ledger-bound (some w) false k l = omega (arith, replies-bound w)

  module _ (methods : Bytes → Option (Entry lib)) (request : Opened) where
    run_method-Ledger :
        (aborted : Bool) (id : lib.Json) (name : Bytes) (o : Option (Entry lib))
        (params : Option lib.Json)
        → let r = run_method lib methods request aborted id name o params in
          Ledger r.0 false (ends r.1)
    unfolding run_method
    run_method-Ledger aborted id name none params = ends-fail aborted id Code.method_not_found []
    run_method-Ledger aborted id name (some method) params = omega (
      arith,
      ends-write_all aborted (method_calls lib method request.caller (value_or lib params))
          (record {
            id = id;
            responded = false;
            gzip = request.accepts_gzip && not (starts_with (codes "auth.") name);
          }),
    )

    run_named-Ledger :
        (aborted : Bool) (body : lib.Json) (o : Bytes ⊎ Bytes)
        → let r = run_named lib methods request aborted body o in Ledger r.0 false (ends r.1)
    unfolding run_named
    run_named-Ledger aborted body (inl detail) = ends-fail aborted _ Code.invalid_request detail
    run_named-Ledger aborted body (inr name) = run_method-Ledger aborted _ name _ _

    run_body-Ledger :
        (aborted : Bool) (o : Bytes ⊎ lib.Json)
        → let r = run_body lib methods request aborted o in Ledger r.0 false (ends r.1)
    unfolding run_body
    run_body-Ledger aborted (inl what) = ends-fail aborted lib.null Code.parse_error what
    run_body-Ledger aborted (inr body) = run_named-Ledger aborted body _

    on_called-Ledger :
        (x : Exchange lib) (calls : List (Call lib)) (o : Option (Writer lib)) (k : ℕ)
        → x.writer ≡ o
        → Ledger o x.receiving k
        → let r = on_called lib methods request x calls o in
          Ledger (r.0).writer (r.0).receiving (k + ends r.1)
    unfolding on_called
    on_called-Ledger x calls none k e l = rw e (Ledger-idle none x.receiving k l)
    on_called-Ledger x calls (some w) k e l = elim (Bool-cases x.receiving) [
      | inl h ↦ absurd (subst (λ b. Ledger (some w) b k) h l)
      | inr h ↦
          rw h
            (omega (arith, called-count k w calls x.aborted (subst (λ b. Ledger (some w) b k) h l)))
    ]

    run_request-Ledger :
        (x : Exchange lib) (body : Bytes)
        → x.writer ≡ none
        → let r = run_request lib methods request x body in
          Ledger (r.0).writer (r.0).receiving (ends r.1)
    unfolding run_request
    run_request-Ledger x body e = elim (Bool-cases x.alive) [
      | inl h ↦ rw h (run_body-Ledger x.aborted (lib.parse body))
      | inr h ↦ rw (h, e) (omega arith)
    ]

    on_data-Ledger :
        (x : Exchange lib) (part : Bytes) (last : Bool)
        → x.receiving ≡ true
        → x.writer ≡ none
        → let r = on_data lib methods request x part last in
          Ledger (r.0).writer (r.0).receiving (ends r.1)
    unfolding on_data
    on_data-Ledger x part last m e =
        elim (Bool-cases (leb (length x.buffer + length part) max_body)) [
          | inr h ↦ rw (h, e) (omega arith)
          | inl h ↦ elim (Bool-cases last) [
            | inr h' ↦ rw (h, h', e, m) refl
            | inl h' ↦ rw (h, h') (run_request-Ledger x (x.buffer ++ part) e)
          ]
        ]

    step-Ledger :
        (e : Event lib) (x : Exchange lib) (k : ℕ)
        → MayOccur lib methods request e x
        → Ledger x.writer x.receiving k
        → let r = step lib methods request e x in Ledger (r.0).writer (r.0).receiving (k + ends r.1)
    unfolding step
    step-Ledger (Event.received part last) x k m l =
        let (e, z) = Ledger-receiving x.writer k (rw (sym m) l) in
        subst
          (λ n.
            Ledger ((on_data lib methods request x part last).0).writer
              ((on_data lib methods request x part last).0).receiving n)
          (omega (arith, z)) (on_data-Ledger x part last m e)
    step-Ledger Event.disconnected x k m l = Ledger-cut x.writer x.receiving k l
    step-Ledger Event.stopped x k m l = Ledger-idle x.writer x.receiving k l
    step-Ledger (Event.called calls) x k m l = on_called-Ledger x calls x.writer k refl l

    Run-Ledger :
        {x z : Exchange lib} {parts : List Part}
        → Ledger x.writer x.receiving 0
        → Run lib methods request x parts z
        → Ledger z.writer z.receiving (ends parts)
    Run-Ledger l here = l
    Run-Ledger l (next {parts} {y} run e m) =
        subst
          (Ledger ((step lib methods request e y).0).writer
            ((step lib methods request e y).0).receiving)
          (sym (ends-append parts ((step lib methods request e y).1)))
          (step-Ledger e y (ends parts) m (Run-Ledger l run))

    -- In every run of a request at most one reply is sent, whatever the method and its callbacks do.
    pub ends-fresh :
        {z : Exchange lib} {parts : List Part}
        → Run lib methods request (fresh lib) parts z
        → ends parts ≤ 1
    ends-fresh {z} {parts} run =
        Ledger-bound z.writer z.receiving (ends parts) (Run-Ledger refl run)
