-- ===== src/Tokens/Form.antt =====
-- The form "porla_<id>_<secret>" of a token, as `Verify` of src/auth/tokens.cpp takes it apart.
use Prim.Native.Nat.{zero, suc}
use porla.Base.{
  ℕ, ◌+◌, ◌≤◌, ◌≡◌, refl, sym, ap, ◌∙◌, true, [], ◌∷◌, ◌++◌, Bytes, codes, ==_iff, length,
  length-append, take, drop, arith, Option-cases, inl, inr, append_assoc, strip_prefix,
  strip_prefix→append, starts_with,
}
use porla.Base.Sorting.{take-drop}
use porla.Tokens.{begins_underscore, is_well_formed, id_part, secret_part}
use porla.Tokens.Issuing.{take-suffix, drop-suffix}

-- The token is "porla_", an id of 16 characters, "_" and a text of 43 characters.
pub record IsForm (token id text : Bytes) : Type 0 where
  pub parts : token ≡ codes "porla_" ++ (id ++ b'_' ∷ text)
  pub length_id : length id ≡ 16
  pub length_text : length text ≡ 43

drop-nil : (n : ℕ) → drop {A = ℕ} n [] ≡ []
drop-nil zero = refl
drop-nil (suc n) = refl

drop-drop : (m n : ℕ) (s : Bytes) → drop (m + n) s ≡ drop n (drop m s)
drop-drop zero n s = ap (λ k. drop k s) (omega arith)
drop-drop (suc m) n [] = drop-nil (suc m + n) ∙ sym (drop-nil n)
drop-drop (suc m) n (c ∷ s) =
    let e : suc m + n ≡ suc (m + n) = omega arith in ap (λ k. drop k (c ∷ s)) e ∙ drop-drop m n s

length-take : (n : ℕ) (s : Bytes) → n ≤ length s → length (take n s) ≡ n
length-take zero s h = refl
length-take (suc n) [] h = omega (arith, h)
length-take (suc n) (c ∷ s) h = ap suc (length-take n s (omega (arith, h)))

starts_with→append : (p s : Bytes) → starts_with p s ≡ true → s ≡ p ++ drop (length p) s
starts_with→append p s h = elim (Option-cases (strip_prefix p s)) [
  | inl e ↦ absurd (ground (arith, e, h))
  | inr (r, e) ↦
      let q = strip_prefix→append p s r e in
      q ∙ ap (λ t. p ++ t) (sym (ap (drop (length p)) q ∙ drop-suffix (length p) p r refl))
]

underscore : (s : Bytes) → begins_underscore s ≡ true → s ≡ b'_' ∷ drop 1 s
underscore [] h = absurd cc
underscore (c ∷ s) h = ap (λ d. d ∷ s) ((==_iff c b'_').0 h)

pub well_formed→IsForm :
    (token : Bytes) → is_well_formed token ≡ true → IsForm token (id_part token) (secret_part token)
unfolding is_well_formed
well_formed→IsForm token h =
    let begins : token ≡ codes "porla_" ++ drop 6 token =
      starts_with→append (codes "porla_") token (ground arith) in
    let middle : drop 22 token ≡ b'_' ∷ drop 1 (drop 22 token) =
      underscore (drop 22 token) (ground arith) in
    let all : length token ≡ 66 = (==_iff (length token) 66).0 (ground arith) in
    let rest : length (drop 6 token) ≡ 60 =
      omega (arith, ap length begins, all, length-append (codes "porla_") (drop 6 token)) in
    let id : length (id_part token) ≡ 16 = length-take 16 (drop 6 token) (omega (arith, rest)) in
    let tail : drop 16 (drop 6 token) ≡ b'_' ∷ secret_part token =
      sym (drop-drop 6 16 token) ∙ middle ∙ ap (λ t. b'_' ∷ t) (sym (drop-drop 22 1 token)) in
    let split : drop 6 token ≡ id_part token ++ b'_' ∷ secret_part token =
      sym (take-drop 16 (drop 6 token)) ∙ ap (λ t. id_part token ++ t) tail in
    record {
      parts = begins ∙ ap (λ t. codes "porla_" ++ t) split;
      length_id = id;
      length_text = omega (
        arith,
        rest,
        id,
        ap length split,
        length-append (id_part token) (b'_' ∷ secret_part token),
      );
    }

module _ (token id text : Bytes) (f : IsForm token id text) where
  pub id_part-IsForm : id_part token ≡ id
  id_part-IsForm = ap id_part f.parts ∙ take-suffix 16 id (b'_' ∷ text) f.length_id

  pub secret_part-IsForm : secret_part token ≡ text
  secret_part-IsForm =
      ap secret_part f.parts
      ∙ ap (drop 17) (sym (append_assoc id (b'_' ∷ []) text))
      ∙ drop-suffix 17 (id ++ b'_' ∷ []) text
          (omega (arith, length-append id (b'_' ∷ []), f.length_id))

  pub IsForm→well_formed : is_well_formed token ≡ true
  unfolding is_well_formed strip_prefix
  IsForm→well_formed =
      let all : length (codes "porla_" ++ (id ++ b'_' ∷ text)) ≡ 66 =
        omega (arith, length-append id (b'_' ∷ text), f.length_id, f.length_text) in
      let middle : drop 22 (codes "porla_" ++ (id ++ b'_' ∷ text)) ≡ b'_' ∷ text =
        drop-suffix 16 id (b'_' ∷ text) f.length_id in
      ap is_well_formed f.parts
      ∙ rw
          (
            (==_iff (length (codes "porla_" ++ (id ++ b'_' ∷ text))) 66).1 all,
            ap begins_underscore middle,
          )
          refl
