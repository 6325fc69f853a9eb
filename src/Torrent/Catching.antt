-- ===== src/Torrent/Catching.antt =====
-- Bringing the status of src/sessions/torrent.hpp up to now in several steps.
use porla.Base.{
  ℕ, ◌+◌, ◌*◌, ◌≤◌, ◌≡◌, refl, sym, ap, ◌∙◌, Bool, true, false, ◌&&◌, ◌||◌, Bool-cases, inl, inr,
  if◌then◌else◌, ◌==◌, arith,
}
use porla.Base.Integers.{ℤ, pos, negsuc}
use porla.Torrent.{
  Torrent, second, elapsed_since, add_if, announce_after, advance, is_live, refresh_timestamps,
}

elapsed_since-step :
    (at a b : ℕ)
    → a ≤ b
    → elapsed_since at a + elapsed_since (at + elapsed_since at a * second) b ≡ elapsed_since at b
unfolding elapsed_since
elapsed_since-step at a b h = omega (arith, h)

add_if-add : (b : Bool) (n i j : ℕ) → add_if b (add_if b n i) j ≡ add_if b n (i + j)
add_if-add true n i j = omega arith
add_if-add false n i j = refl

announce_after-add :
    (n : ℤ) (i j : ℕ) → announce_after (announce_after n i) j ≡ announce_after n (i + j)
unfolding announce_after
announce_after-add (pos n) i j = ap pos (omega arith)
announce_after-add (negsuc n) i j = ap pos (omega arith)

advance-add :
    (live : Bool) (i j : ℕ) (t : Torrent)
    → advance live j (advance live i t) ≡ advance live (i + j) t
unfolding advance
advance-add live i j t = λ k. record t {
  status = record t.status {
    active_duration = add_if-add live t.status.active_duration i j k;
    seeding_duration = add_if-add (live && t.status.is_seeding) t.status.seeding_duration i j k;
    finished_duration = add_if-add (live && t.status.is_finished) t.status.finished_duration i j k;
    next_announce = announce_after-add t.status.next_announce i j k;
  };
  time_refreshed_at = at_sum t.time_refreshed_at k;
}
  where
    at_sum : (n : ℕ) → (n + i * second) + j * second ≡ n + (i + j) * second
    at_sum n = omega arith

module _ (now : ℕ) (p : Bool) (t : Torrent) where
  abbrev advanced : Torrent
  advanced = advance (is_live p t) (elapsed_since t.time_refreshed_at now) t

  -- A status that has never been stored, or is not a second old, is left.
  refresh-left :
      ((t.time_refreshed_at == 0) || (elapsed_since t.time_refreshed_at now == 0)) ≡ true
      → refresh_timestamps now p t ≡ t
  unfolding refresh_timestamps
  refresh-left e = ap (λ c. if c then t else advanced) e

  refresh-advanced :
      ((t.time_refreshed_at == 0) || (elapsed_since t.time_refreshed_at now == 0)) ≡ false
      → refresh_timestamps now p t ≡ advanced
  unfolding refresh_timestamps
  refresh-advanced e = ap (λ c. if c then t else advanced) e

module _ (a b : ℕ) (p : Bool) (t : Torrent) (h : a ≤ b) where
  abbrev first : ℕ
  first = elapsed_since t.time_refreshed_at a

  abbrev second_time : ℕ
  second_time = t.time_refreshed_at + first * second

  together : first + elapsed_since second_time b ≡ elapsed_since t.time_refreshed_at b
  together = elapsed_since-step t.time_refreshed_at a b h

  -- The second step, behind a first one that has advanced the status.
  refresh-again :
      (t.time_refreshed_at == 0) ≡ false
      → (first == 0) ≡ false
      → refresh_timestamps b p (advance (is_live p t) first t) ≡ refresh_timestamps b p t
  unfolding advance
  refresh-again z e = elim (Bool-cases (elapsed_since second_time b == 0)) [
    | inl k ↦
        refresh-left b p (advance (is_live p t) first t) (ground (arith, k))
        ∙ ap (λ n. advance (is_live p t) n t) (ground (arith, k, together))
        ∙ sym whole
    | inr k ↦
        refresh-advanced b p (advance (is_live p t) first t) (ground (arith, k, z))
        ∙ advance-add (is_live p t) first (elapsed_since second_time b) t
        ∙ ap (λ n. advance (is_live p t) n t) together
        ∙ sym whole
  ]
    where
      whole :
          refresh_timestamps b p t ≡ advance (is_live p t) (elapsed_since t.time_refreshed_at b) t
      whole = refresh-advanced b p t (ground (arith, z, e, together))

-- A status that is brought up to one time and then to a later one, while its session is paused in both or in
-- neither, is what it would be if it had been brought up to the later time at once.
pub refresh_timestamps-refresh_timestamps :
    (a b : ℕ) (p : Bool) (t : Torrent)
    → a ≤ b
    → refresh_timestamps b p (refresh_timestamps a p t) ≡ refresh_timestamps b p t
refresh_timestamps-refresh_timestamps a b p t h =
    elim (Bool-cases ((t.time_refreshed_at == 0) || (elapsed_since t.time_refreshed_at a == 0))) [
      | inl e ↦ ap (refresh_timestamps b p) (refresh-left a p t e)
      | inr e ↦
          ap (refresh_timestamps b p) (refresh-advanced a p t e)
          ∙ refresh-again a b p t h (ground (arith, e)) (ground (arith, e))
    ]
