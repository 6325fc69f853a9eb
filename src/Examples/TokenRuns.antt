-- ===== src/Examples/TokenRuns.antt =====
-- src/auth/tokens.cpp with a toy cipher: texts are cut or filled to the lengths that libsodium gives.
use porla.Base.{
  ℕ, zero, suc, ◌-◌, ap, ◌≡◌, ◌↔◌, refl, if◌then◌else◌, bytes_eq, true, [], ◌∷◌, ◌++◌, none, some,
  Bytes, codes, length, length-append, take, arith,
}
use porla.Tokens.{
  Crypto, IsCrypto, Token, api_key, Table, issue, insert, new_row, new_token, verify,
}
use porla.Tokens.Issuing.{take-append, used_row, verify-issue}
use porla.Tokens.Verifying.{IsProof, IsUse, verify_iff}

abbrev pub filler : ℕ → Bytes
filler zero = []
filler (suc n) = b'0' ∷ filler n

length-filler : (n : ℕ) → length (filler n) ≡ n
length-filler zero = refl
length-filler (suc n) = omega (arith, length-filler n)

-- A text without its last 11 bytes.
abbrev pub unpad : Bytes → Bytes
unpad s = take (length s - 11) s

abbrev pub toy : Crypto
toy = record {
  bin2hex = λ s. s ++ filler 8;
  encode = λ s. s ++ filler 11;
  decode = λ s. some (unpad s);
  hash = λ s. s;
}

unpad-filler : (s : Bytes) → unpad (s ++ filler 11) ≡ s
unpad-filler s =
    let e : length (s ++ filler 11) - 11 ≡ length s = omega (arith, length-append s (filler 11)) in
    rw e (take-append s (filler 11))

toy-IsCrypto : IsCrypto toy
toy-IsCrypto = record {
  length-bin2hex = λ s h. omega (arith, h, length-append s (filler 8));
  length-encode = λ s h. omega (arith, h, length-append s (filler 11));
  decode-encode = λ s. ap some (unpad-filler s);
}

-- An API key that never expires.
abbrev pub key_row : Token
key_row = record {
  id = [];
  kind = api_key;
  user_id = none;
  secret_hash = [];
  created_at = 0;
  expires_at = none;
  last_used_at = none;
}

abbrev no_tokens : Table
no_tokens id = none

abbrev pub id_bytes : Bytes
id_bytes = codes "12345678"

abbrev pub secret_bytes : Bytes
secret_bytes = codes "abcdefghijklmnopqrstuvwxyz012345"

abbrev pub one_token : Table
one_token id =
    if bytes_eq (toy.bin2hex id_bytes) id
    then some (new_row toy id_bytes secret_bytes 100 key_row)
    else none

verify-issue_example :
    (verify toy true 900 (new_token toy id_bytes secret_bytes).token one_token).1
    ≡ some (used_row true 900 (new_row toy id_bytes secret_bytes 100 key_row))
unfolding issue insert new_row
verify-issue_example =
    verify-issue toy toy-IsCrypto id_bytes secret_bytes refl refl true 900 100 key_row no_tokens
      one_token (new_token toy id_bytes secret_bytes) refl refl

-- The key that was issued is accepted, and its use is noted.
verify_iff_example :
    ((verify toy true 900 (new_token toy id_bytes secret_bytes).token one_token).1
      ≡ some (used_row true 900 (new_row toy id_bytes secret_bytes 100 key_row)))
    ↔ ((row : Token) × IsProof toy 900 (new_token toy id_bytes secret_bytes).token one_token row
        × IsUse true 900 row (used_row true 900 (new_row toy id_bytes secret_bytes 100 key_row)))
verify_iff_example =
    verify_iff toy true 900 (new_token toy id_bytes secret_bytes).token one_token
      (used_row true 900 (new_row toy id_bytes secret_bytes 100 key_row))
