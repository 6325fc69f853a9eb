-- ===== src/Rpc/Agents.antt =====
-- The user agent that src/rpc/jsonrpc.cpp keeps: a text in UTF-8 is cut between characters.
use porla.Base.{
  ℕ, zero, suc, ◌≤◌, ◌<◌, ◌≡◌, refl, sym, ap, false, Bool-cases, inl, inr, ◌⊎◌, subst, ◌∙◌, [], ◌∷◌,
  ◌++◌, Bytes, arith, leb, leb_iff, ◌==◌, if◌then◌else◌, length, take, is_empty, All,
}
use porla.Rpc.Handler.{drop_continuation, drop_lead, cut_agent}

abbrev pub IsContinuation : ℕ → Type 0
IsContinuation c = (128 ≤ c) × (c < 192)

-- The number of continuation bytes behind a lead byte.
abbrev pub width : ℕ → ℕ
width c = if leb 240 c then 3 else if leb 224 c then 2 else 1

-- A text of whole characters.
pub data Characters : Bytes → Type 0 where
  done : Characters []
  ascii : {c : ℕ} {s : Bytes} → c < 128 → Characters s → Characters (c ∷ s)
  wide :
      {c : ℕ} {s : Bytes} (conts : Bytes)
      → 192 ≤ c
      → length conts ≡ width c
      → All IsContinuation conts
      → Characters s
      → Characters (c ∷ conts ++ s)

-- What is left of a text that is cut anywhere.
trim_end : Bytes → Bytes
trim_end s = drop_lead (drop_continuation s)

drop_lead-cons : (c : ℕ) (s : Bytes) → c < 192 → drop_lead (c ∷ s) ≡ c ∷ drop_lead s
unfolding drop_lead
drop_lead-cons c [] h = ground arith
drop_lead-cons c (d ∷ s) h = refl

drop_continuation-ascii :
    (c : ℕ) (s : Bytes) → c < 128 → drop_continuation (c ∷ s) ≡ c ∷ drop_continuation s
unfolding drop_continuation
drop_continuation-ascii c s h = ground arith

drop_continuation-lead :
    (c : ℕ) (s : Bytes) → 192 ≤ c → drop_continuation (c ∷ s) ≡ c ∷ drop_continuation s
unfolding drop_continuation
drop_continuation-lead c s h = ground arith

is_empty-append : (s t : Bytes) → is_empty t ≡ false → is_empty (s ++ t) ≡ false
is_empty-append [] t h = h
is_empty-append (c ∷ s) t h = refl

drop_lead-append : (s t : Bytes) → is_empty t ≡ false → drop_lead (s ++ t) ≡ s ++ drop_lead t
unfolding drop_lead
drop_lead-append [] t h = refl
drop_lead-append (c ∷ []) [] h = absurd cc
drop_lead-append (c ∷ []) (d ∷ t) h = refl
drop_lead-append (c ∷ d ∷ s) t h = ap (λ r. c ∷ r) (drop_lead-append (d ∷ s) t h)

drop_continuation-keep :
    (c : ℕ) (s : Bytes)
    → is_empty (drop_continuation s) ≡ false
    → drop_continuation (c ∷ s) ≡ c ∷ drop_continuation s
unfolding drop_continuation
drop_continuation-keep c s h = ground (arith, h)

drop_continuation-drop :
    (c : ℕ) (s : Bytes)
    → IsContinuation c
    → drop_continuation s ≡ []
    → drop_continuation (c ∷ s) ≡ []
unfolding drop_continuation
drop_continuation-drop c s (h, k) e = rw e (ground (arith, h, k))

-- A cut within continuation bytes leaves none of them; a cut behind them leaves all, or none with
-- nothing behind.
cut_cases :
    (conts s : Bytes) (n : ℕ)
    → All IsContinuation conts
    → (drop_continuation (take n (conts ++ s)) ≡ [])
      ⊎ ((k : ℕ) × (drop_continuation (take n (conts ++ s)) ≡ conts ++ drop_continuation (take k s))
          × (is_empty (drop_continuation (take k s)) ≡ false))
cut_cases [] s n a = split_empty (drop_continuation (take n s)) refl
  where
    split_empty :
        (r : Bytes)
        → drop_continuation (take n s) ≡ r
        → (drop_continuation (take n s) ≡ [])
          ⊎ ((k : ℕ) × (drop_continuation (take n s) ≡ drop_continuation (take k s))
              × (is_empty (drop_continuation (take k s)) ≡ false))
    split_empty [] e = inl e
    split_empty (c ∷ r) e = inr (n, refl, rw e refl)
cut_cases (c ∷ conts) s zero a = inl (unfold drop_continuation in refl)
cut_cases (c ∷ conts) s (suc n) a = elim (cut_cases conts s n a.1) [
  | inl e ↦ inl (drop_continuation-drop c (take n (conts ++ s)) a.0 e)
  | inr (k, e, h) ↦
      let ne : is_empty (drop_continuation (take n (conts ++ s))) ≡ false =
        rw e (is_empty-append conts (drop_continuation (take k s)) h) in
      inr (k, drop_continuation-keep c (take n (conts ++ s)) ne ∙ ap (λ r. c ∷ r) e, h)
]

trim_end-ascii : (c : ℕ) (s : Bytes) → c < 128 → c ∷ trim_end s ≡ trim_end (c ∷ s)
unfolding trim_end
trim_end-ascii c s h = sym (
    ap drop_lead (drop_continuation-ascii c s h)
    ∙ drop_lead-cons c (drop_continuation s) (omega (arith, h)))

trim_end-partial : (c : ℕ) (s : Bytes) → 192 ≤ c → drop_continuation s ≡ [] → [] ≡ trim_end (c ∷ s)
unfolding trim_end drop_lead
trim_end-partial c s h e = rw (drop_continuation-lead c s h, e, (leb_iff 192 c).1 h) refl

trim_end-whole :
    (c : ℕ) (s conts t : Bytes)
    → 192 ≤ c
    → drop_continuation s ≡ conts ++ drop_continuation t
    → is_empty (drop_continuation t) ≡ false
    → (c ∷ conts) ++ trim_end t ≡ trim_end (c ∷ s)
unfolding trim_end
trim_end-whole c s conts t h e ne = sym (
    ap drop_lead (drop_continuation-lead c s h ∙ ap (λ r. c ∷ r) e)
    ∙ drop_lead-append (c ∷ conts) (drop_continuation t) ne)

trim_end-take : {s : Bytes} → Characters s → (n : ℕ) → Characters (trim_end (take n s))
unfolding trim_end
trim_end-take done zero = unfold drop_lead drop_continuation in done
trim_end-take done (suc n) = unfold drop_lead drop_continuation in done
trim_end-take (ascii h cs) zero = unfold drop_lead drop_continuation in done
trim_end-take (ascii {c} {s} h cs) (suc n) =
    subst Characters (trim_end-ascii c (take n s) h) (ascii h (trim_end-take cs n))
trim_end-take (wide conts h w a cs) zero = unfold drop_lead drop_continuation in done
trim_end-take (wide {c} {s} conts h w a cs) (suc n) = elim (cut_cases conts s n a) [
  | inl e ↦ subst Characters (trim_end-partial c (take n (conts ++ s)) h e) done
  | inr (k, e, ne) ↦
      subst Characters (trim_end-whole c (take n (conts ++ s)) conts (take k s) h e ne)
        (wide conts h w a (trim_end-take cs k))
]

take-short : (n : ℕ) (s : Bytes) → (length (take n s) == n) ≡ false → take n s ≡ s
take-short zero s h = absurd (ground arith)
take-short (suc n) [] h = refl
take-short (suc n) (c ∷ s) h = ap (λ r. c ∷ r) (take-short n s (ground arith))

-- A user agent in UTF-8 is cut between characters.
pub cut_agent-Characters : (agent : Bytes) → Characters agent → Characters (cut_agent agent)
unfolding cut_agent
cut_agent-Characters agent cs = elim (Bool-cases (length (take 512 agent) == 512)) [
  | inl h ↦ rw h (unfold trim_end in trim_end-take cs 512)
  | inr h ↦ rw (h, take-short 512 agent h) cs
]
