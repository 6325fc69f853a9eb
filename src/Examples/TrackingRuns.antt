-- ===== src/Examples/TrackingRuns.antt =====
-- src/sessions/session.cpp and src/torrents.cpp with a magnet link and the hybrid torrent that it is of.
use porla.Base.{◌≡◌, refl, true, false, List, [], ◌∷◌, none, some, In, inl, inr, ap₂, ◌⊎◌}
use porla.HashMap.{Key, empty, agree, same_key, compatible, calls, find_by_half, try_emplace}
use porla.HashMap.Index.{present, calls-empty-IsIndexed}
use porla.Tracking.{
  loading, adding, Params, Request, added, untracked, serve_all, already_in_session, add_torrent,
  with_error, add, serve, hand_over,
}
use porla.Tracking.Shared.{Shares, IsConsistent, Finds}
use porla.Tracking.Apart.{asked, serve_all-Apart}
use porla.Tracking.Adding.{Outcome, add_torrent-Outcome}

abbrev magnet : Key
magnet = record { v1 = some 1; v2 = none }

abbrev hybrid : Key
hybrid = record { v1 = some 1; v2 = some 2 }

abbrev some_requests : List Request
some_requests =
    added magnet false loading true
    ∷ added hybrid true adding true
    ∷ untracked magnet
    ∷ added hybrid true adding false
    ∷ added hybrid true adding true
    ∷ []

either : (a : Key) → In a (asked some_requests) → (a ≡ magnet) ⊎ (a ≡ hybrid)
either a (inl e) = inl e
either a (inr (inl e)) = inr e
either a (inr (inr (inl e))) = inr e
either a (inr (inr (inr (inl e)))) = inr e
either a (inr (inr (inr (inr m)))) = elim m [ ]

fits :
    (a b : Key) → (a ≡ magnet) ⊎ (a ≡ hybrid) → (b ≡ magnet) ⊎ (b ≡ hybrid) → compatible a b ≡ true
unfolding compatible agree
fits a b (inl e) (inl f) = ap₂ compatible e f
fits a b (inl e) (inr f) = ap₂ compatible e f
fits a b (inr e) (inl f) = ap₂ compatible e f
fits a b (inr e) (inr f) = ap₂ compatible e f

asked-IsConsistent : IsConsistent (asked some_requests)
asked-IsConsistent a b m n shares = fits a b (either a m) (either b n)

serve_all-Apart_example :
    ((k j : Key)
      → present (serve_all some_requests empty) k ≡ true
      → present (serve_all some_requests empty) j ≡ true
      → Shares k j
      → k ≡ j)
    × ((hash k : Key)
        → In hash (asked some_requests)
        → present (serve_all some_requests empty) k ≡ true
        → Shares hash k
        → ((j : Key) × Finds (serve_all some_requests empty) hash j)
          × (((j : Key) → present (serve_all some_requests empty) j ≡ true → Shares hash j → j ≡ k)
              → find_by_half hash (serve_all some_requests empty)
                ≡ (serve_all some_requests empty).items k))
serve_all-Apart_example = serve_all-Apart some_requests asked-IsConsistent

abbrev some_params : Params
some_params = record {
  has_session = true;
  hash = hybrid;
  has_info = true;
  is_valid = true;
  has_save_path = true;
}

add_torrent-Outcome_example : Outcome some_params empty (add_torrent some_params true empty)
unfolding calls
add_torrent-Outcome_example = add_torrent-Outcome some_params true empty (calls-empty-IsIndexed [])

added_again :
    (add_torrent some_params true (serve_all (added magnet false loading true ∷ []) empty)).1
    ≡ already_in_session
unfolding add_torrent serve_all with_error add find_by_half serve empty hand_over try_emplace
    compatible same_key
added_again = refl
