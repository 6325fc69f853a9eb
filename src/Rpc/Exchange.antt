-- ===== src/Rpc/Exchange.antt =====
-- A request of src/rpc/jsonrpc.cpp from its first byte to its reply, as steps: parts of the body, the
-- end of the connection or of the server, and the later calls of the writer that a method keeps.
use porla.Base.{
  ◌+◌, ◌≡◌, Bool, true, false, ◌⊎◌, inl, inr, List, [], ◌++◌, ◌∷◌, Option, none, some, Bytes, codes,
  if◌then◌else◌, leb, length, starts_with, not, ◌&&◌,
}
use porla.Rpc.Errors.{Code}
use porla.Rpc.{Library, Part, Call, Writer, write_all}
use porla.Rpc.Handler.{
  Opened, Entry, asleep, max_body, fail, found_id, id_ok, reply_id, value_or, string_at,
  method_name, method_calls,
}

module _ (lib : Library) where
  -- `alive` tells whether the server is there, `receiving` whether the connection still hands over data,
  -- and the writer is the one that was given to a method.
  pub record Exchange : Type 0 where
    pub alive : Bool
    pub aborted : Bool
    pub receiving : Bool
    pub buffer : Bytes
    pub writer : Option (Writer lib)

  abbrev pub fresh : Exchange
  fresh = record { alive = true; aborted = false; receiving = true; buffer = []; writer = none }

  pub data Event : Type 0 where
    received : Bytes → Bool → Event
    disconnected stopped : Event
    called : List (Call lib) → Event

  module _ (methods : Bytes → Option (Entry lib)) (request : Opened) where
    -- The writer after the method's calls, and what is sent.
    unfoldable pub run_method :
        Bool
        → lib.Json
        → Bytes
        → Option (Entry lib)
        → Option lib.Json
        → Option (Writer lib) × List Part
    run_method aborted id name none params = (none, fail lib aborted id Code.method_not_found [])
    run_method aborted id name (some method) params =
        let (w, parts) =
          write_all lib aborted (method_calls lib method request.caller (value_or lib params))
            (record {
              id = id;
              responded = false;
              gzip = request.accepts_gzip && not (starts_with (codes "auth.") name);
            }) in
        (some w, parts)

    unfoldable pub run_named : Bool → lib.Json → Bytes ⊎ Bytes → Option (Writer lib) × List Part
    run_named aborted body (inl detail) =
        (none, fail lib aborted (reply_id lib body) Code.invalid_request detail)
    run_named aborted body (inr name) =
        run_method aborted (reply_id lib body) name (methods name) (lib.find (codes "params") body)

    unfoldable pub run_body : Bool → Bytes ⊎ lib.Json → Option (Writer lib) × List Part
    run_body aborted (inl what) = (none, fail lib aborted lib.null Code.parse_error what)
    run_body aborted (inr body) = run_named aborted body (
        method_name lib (id_ok lib (found_id lib body)) (string_at lib (codes "jsonrpc") body)
          (string_at lib (codes "method") body))

    -- The handler once the body is complete.
    unfoldable pub run_request : Exchange → Bytes → Exchange × List Part
    run_request x body =
        if not x.alive
        then (record x { receiving = false; buffer = body }, asleep)
        else let (writer, parts) = run_body x.aborted (lib.parse body) in
          (
            record x { receiving = false; buffer = body; writer = writer },
            Part.status (codes "200 OK")
                ∷ Part.header (codes "Content-Type") (codes "application/json")
                ∷ parts,
          )

    -- The handler of `onData`.
    unfoldable pub on_data : Exchange → Bytes → Bool → Exchange × List Part
    on_data x part last =
        if not (leb (length x.buffer + length part) max_body)
        then (
          record x { receiving = false; aborted = true },
          Part.status (codes "413 Payload  Too Large") ∷ Part.end [] true ∷ [],
        )
        else if not last
        then (record x { buffer = x.buffer ++ part }, [])
        else run_request x (x.buffer ++ part)

    -- The calls of a writer that is kept.
    unfoldable pub on_called :
        Exchange → List (Call lib) → Option (Writer lib) → Exchange × List Part
    on_called x calls none = (x, [])
    on_called x calls (some w) =
        let (w, parts) = write_all lib x.aborted calls w in (record x { writer = some w }, parts)

    unfoldable pub step : Event → Exchange → Exchange × List Part
    step (received part last) x = on_data x part last
    step disconnected x = (record x { receiving = false; aborted = true }, [])
    step stopped x = (record x { alive = false }, [])
    step (called calls) x = on_called x calls x.writer

    -- The connection hands over no data after the last part, after an end that closes it, or once
    -- it is gone.
    abbrev pub MayOccur : Event → Exchange → Type 0
    MayOccur (received part last) x = x.receiving ≡ true
    MayOccur _ x = Unit

    -- The events that can follow each other, with all that they send.
    pub data Run (x : Exchange) : List Part → Exchange → Type 0 where
      here : Run x [] x
      next :
          {parts : List Part} {y : Exchange}
          → Run x parts y
          → (e : Event) → MayOccur e y
          → Run x (parts ++ (step e y).1) ((step e y).0)
