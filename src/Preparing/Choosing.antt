-- ===== src/Preparing/Choosing.antt =====
-- Where the session of a torrent that is added comes from (src/torrents.cpp), and with it the settings.
use porla.Base.{
  ℕ, ◌≡◌, refl, sym, ap, ◌∙◌, subst, Bool, true, false, not, ◌&&◌, ◌||◌, [], ◌∷◌, Option, none,
  some, some-injective, if_cases, is_some,
}
use porla.Preparing.{
  Preset, Params, Options, Known, Prepared, prepared, rejected, choose_preset, session_of, or_next,
  wanted_session, if_stored, find_session, with_session, with_preset, prepare,
}
use porla.Preparing.Settings.{first_of, Follows, IsSame, settings-Follows}

-- A session that is named, if it is stored.
abbrev pub named : Known → Option ℕ → Option (Option ℕ)
named known none = none
named known (some id) = some (if_stored known id)

-- The first session that the options, the preset or the default preset name, or else the default session.
abbrev pub session_choice : Known → Options → Option Preset → Option ℕ
session_choice known options preset =
    first_of
      (named known options.session_id
        ∷ named known (session_of preset)
        ∷ named known (session_of known.default_preset)
        ∷ [])
      known.default_session

find_session-session_choice :
    (known : Known) (options : Options) (preset : Option Preset)
    → find_session known (wanted_session known options preset) ≡ session_choice known options preset
unfolding find_session wanted_session
find_session-session_choice known options preset =
    by_names options.session_id (session_of preset) (session_of known.default_preset)
  where
    by_names :
        (a b c : Option ℕ)
        → find_session known (or_next a (or_next b c))
          ≡ first_of (named known a ∷ named known b ∷ named known c ∷ []) known.default_session
    by_names (some a) b c = refl
    by_names none (some b) c = refl
    by_names none none (some c) = refl
    by_names none none none = refl

-- What it takes for a torrent to be prepared, and with what.
pub record IsChosen (known : Known) (options : Options) (preset : Option Preset) (p : Params)
    (n : ℕ) (q : Params) : Type 0 where
  pub found : (is_some options.preset || is_some options.preset_id) ≡ true → is_some preset ≡ true
  pub session : session_choice known options preset ≡ some n
  pub loaded : known.is_loaded n ≡ true
  pub settings : Follows preset known.default_preset p q

abbrev id_of : Prepared → Option ℕ
id_of (prepared n q) = some n
id_of (rejected e n) = none

abbrev params_of : Params → Prepared → Params
params_of p (prepared n q) = q
params_of p (rejected e n) = p

prepared-injective : {n m : ℕ} {p q : Params} → prepared n p ≡ prepared m q → (n ≡ m) × (p ≡ q)
prepared-injective {n} {m} {p} {q} e = (some-injective (ap id_of e), ap (params_of p) e)

-- If Prepare succeeds, and a preset with the id of the default preset is the default preset: the preset that was asked
-- for was found; the session is loaded, and is the first that the options, the preset or the default
-- preset name, which is stored, or else the default session; and each setting is the preset's, or else
-- the default preset's, or else as it was given.
pub prepare-IsChosen :
    (known : Known) (options : Options) (p : Params) (n : ℕ) (q : Params)
    → IsSame (choose_preset known options.preset_id options.preset) known.default_preset
    → prepare known options p ≡ prepared n q
    → IsChosen known options (choose_preset known options.preset_id options.preset) p n q
unfolding prepare with_preset
prepare-IsChosen known options p n q s e =
    if_cases (λ r. r ≡ prepared n q → IsChosen known options preset p n q)
      ((is_some options.preset || is_some options.preset_id) && not (is_some preset))
      (λ _ e. absurd (let t : none ≡ some n = ap id_of e in cc))
      (λ f e.
        chosen (λ a. is_found _ _ f a) (find_session known wanted)
          (sym (find_session-session_choice known options preset)) e)
      e
  where
    preset : Option Preset
    preset = choose_preset known options.preset_id options.preset

    wanted : Option ℕ
    wanted = wanted_session known options preset

    is_found : (a b : Bool) → (a && not b) ≡ false → a ≡ true → b ≡ true
    is_found true true f g = refl
    is_found true false f g = absurd cc
    is_found false b f g = absurd cc

    chosen :
        ((is_some options.preset || is_some options.preset_id) ≡ true → is_some preset ≡ true)
        → (o : Option ℕ) → session_choice known options preset ≡ o
        → with_session known preset wanted o p ≡ prepared n q
        → IsChosen known options preset p n q
    chosen f none c e = unfold with_session in absurd (let t : none ≡ some n = ap id_of e in cc)
    chosen f (some id) c e =
        unfold with_session in
        if_cases (λ r. r ≡ prepared n q → IsChosen known options preset p n q) (known.is_loaded id)
          (λ l e.
            let (same, params) = prepared-injective e in
            record {
              found = f;
              session = c ∙ ap some same;
              loaded = sym (ap known.is_loaded same) ∙ l;
              settings =
                  subst (Follows preset known.default_preset p) params
                    (settings-Follows preset known.default_preset p s);
            })
          (λ l e. absurd (let t : none ≡ some n = ap id_of e in cc)) e
