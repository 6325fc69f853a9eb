-- ===== src/Http/Body.antt =====
-- The body that a transfer of src/curlmulti.cpp receives: `HttpWriteCallback`, and the reply of `HttpGet`.
use porla.Base.{
  ℕ, ◌+◌, ◌*◌, ◌≤◌, ◌≡◌, refl, sym, ap, ◌∙◌, Bool, true, false, Bool-cases, inl, inr, List, [], ◌∷◌,
  ◌++◌, append_assoc, append-nil, if◌then◌else◌, ltb, leb, ltb_iff, leb_iff, ◌==◌, ==_iff, length,
  length-append, arith,
}
use porla.Http.{Code, ok}

abbrev pub max_response_bytes : ℕ
max_response_bytes = 8 * 1024 * 1024

-- What is returned to libcurl, and the stream.
unfoldable pub http_write : List ℕ → List ℕ → ℕ × List ℕ
http_write chunk body =
    if ltb max_response_bytes (length body + length chunk)
    then (0, body)
    else (length chunk, body ++ chunk)

-- libcurl hands over one chunk after another, and ends the transfer when less than all of a chunk is taken:
-- whether all were, and the stream.
unfoldable pub receive : List (List ℕ) → List ℕ → Bool × List ℕ
receive [] body = (true, body)
receive (chunk ∷ chunks) body =
    let rest = receive chunks (http_write chunk body).1 in
    if (http_write chunk body).0 == length chunk then rest else (false, (http_write chunk body).1)

-- What the callback of `HttpGet` is told: the status and the body.
abbrev pub reply : Code → ℕ → List ℕ → ℕ × List ℕ
reply ok response_code body = (response_code, body)
reply _ response_code body = (0, body)

abbrev pub joined : List (List ℕ) → List ℕ
joined [] = []
joined (chunk ∷ chunks) = chunk ++ joined chunks

-- The stream is within the limit; it is all of the chunks if they were taken, which they are if they fit.
pub record Received (chunks : List (List ℕ)) (body : List ℕ) (r : Bool × List ℕ) : Type 0 where
  pub bounded : length r.1 ≤ max_response_bytes
  pub taken : r.0 ≡ leb (length body + length (joined chunks)) max_response_bytes
  pub complete : r.0 ≡ true → r.1 ≡ body ++ joined chunks

receive-cons :
    (chunk : List ℕ) (chunks : List (List ℕ)) (body : List ℕ)
    → (n : ℕ) (b : List ℕ) → http_write chunk body ≡ (n, b)
    → receive (chunk ∷ chunks) body ≡ (if n == length chunk then receive chunks b else (false, b))
unfolding receive
receive-cons chunk chunks body n b e =
    ap (λ (w : ℕ × List ℕ). if w.0 == length chunk then receive chunks w.1 else (false, w.1)) e

leb-false : (a b : ℕ) → b + 1 ≤ a → leb a b ≡ false
leb-false a b h = ground (arith, h)

ltb-false : (a b : ℕ) → ltb a b ≡ false → b ≤ a
ltb-false a b h = ground (arith, h)

not_zero : (n : ℕ) → 1 ≤ n → (0 == n) ≡ false
not_zero n h = ground (arith, h)

receive-fits :
    (chunks : List (List ℕ)) (body : List ℕ)
    → length body ≤ max_response_bytes
    → Received chunks body (receive chunks body)
unfolding http_write
receive-fits [] body h =
    unfold receive in
    record {
      bounded = h;
      taken = sym ((leb_iff (length body + 0) max_response_bytes).1 (omega (arith, h)));
      complete = λ t. sym (append-nil body);
    }
receive-fits (chunk ∷ chunks) body h =
    elim (Bool-cases (ltb max_response_bytes (length body + length chunk))) [
      | inl g ↦
          let over = (ltb_iff max_response_bytes (length body + length chunk)).0 g in
          let stopped : receive (chunk ∷ chunks) body ≡ (false, body) =
            receive-cons chunk chunks body 0 body (refused g)
            ∙ ap (λ b. if b then receive chunks body else (false, body))
                (not_zero (length chunk) (omega (arith, over, h))) in
          rw stopped (record {
            bounded = h;
            taken = sym (leb-false _ _ (omega (arith, over, length-append chunk (joined chunks))));
            complete = λ t. cc;
          })
      | inr g ↦
          let within = ltb-false max_response_bytes (length body + length chunk) g in
          let rest =
            receive-fits chunks (body ++ chunk) (omega (arith, within, length-append body chunk)) in
          let went : receive (chunk ∷ chunks) body ≡ receive chunks (body ++ chunk) =
            receive-cons chunk chunks body (length chunk) (body ++ chunk) (accepted g)
            ∙ ap (λ b. if b then receive chunks (body ++ chunk) else (false, body ++ chunk))
                ((==_iff (length chunk) (length chunk)).1 refl) in
          rw went (record {
            bounded = rest.bounded;
            taken =
                rest.taken
                ∙ ap (λ n. leb n max_response_bytes)
                    (omega (arith, length-append body chunk, length-append chunk (joined chunks)));
            complete = λ t. rest.complete t ∙ append_assoc body chunk (joined chunks);
          })
    ]
  where
    refused :
        ltb max_response_bytes (length body + length chunk) ≡ true
        → http_write chunk body ≡ (0, body)
    refused g = rw g refl

    accepted :
        ltb max_response_bytes (length body + length chunk) ≡ false
        → http_write chunk body ≡ (length chunk, body ++ chunk)
    accepted g = rw g refl

-- However a body is cut into chunks: no more than 8 MiB of it are kept; all of it is taken if it has at most that,
-- and then the stream is the body; otherwise libcurl is told to stop.
pub receive-Received : (chunks : List (List ℕ)) → Received chunks [] (receive chunks [])
receive-Received chunks = receive-fits chunks [] (omega arith)
