-- ===== src/Rpc/Errors.antt =====
-- src/errors.hpp: the registry of errors.
use porla.Base.{◌≡◌, refl, Option, none, some, Bytes, codes, bytes_eq, if◌then◌else◌}
use porla.Base.Integers.{ℤ, neg}

pub data Code : Type 0 where
  parse_error invalid_request method_not_found invalid_params internal_error : Code
  permission_denied session_not_found session_not_loaded torrent_not_found : Code
  torrent_already_added torrent_no_metadata torrent_add_failed preset_not_found : Code
  already_registered decode_error decrypt_failed invalid_state closed : Code
  libtorrent_error io_error http_error : Code

pub record Entry : Type 0 where
  pub name : Bytes
  pub rpc_code : ℤ
  pub message : Bytes

abbrev entry : Bytes → ℤ → Bytes → Entry
entry name code message = record { name = name; rpc_code = code; message = message }

-- `Get`.
unfoldable pub get_error : Code → Entry
get_error Code.parse_error = entry (codes "parse_error") (neg 32700) (codes "Parse error")
get_error Code.invalid_request =
    entry (codes "invalid_request") (neg 32600) (codes "Invalid Request")
get_error Code.method_not_found =
    entry (codes "method_not_found") (neg 32601) (codes "Method not found")
get_error Code.invalid_params = entry (codes "invalid_params") (neg 32602) (codes "Invalid params")
get_error Code.internal_error = entry (codes "internal_error") (neg 32603) (codes "Internal error")
get_error Code.permission_denied =
    entry (codes "permission_denied") (ℤ.pos 1001) (codes "Invocation not allowed")
get_error Code.session_not_found =
    entry (codes "session_not_found") (neg 1) (codes "Session not found")
get_error Code.session_not_loaded =
    entry (codes "session_not_loaded") (neg 2) (codes "Session not loaded")
get_error Code.torrent_not_found =
    entry (codes "torrent_not_found") (neg 3) (codes "Torrent not found")
get_error Code.torrent_already_added =
    entry (codes "torrent_already_added") (neg 10) (codes "Torrent already in session")
get_error Code.torrent_no_metadata =
    entry (codes "torrent_no_metadata") (neg 11) (codes "Torrent has no metadata")
get_error Code.torrent_add_failed =
    entry (codes "torrent_add_failed") (neg 12) (codes "Failed to add torrent")
get_error Code.preset_not_found =
    entry (codes "preset_not_found") (neg 20) (codes "Preset not found")
get_error Code.already_registered =
    entry (codes "already_registered") (neg 48) (codes "Already registered")
get_error Code.decode_error = entry (codes "decode_error") (neg 62) (codes "Decode error")
get_error Code.decrypt_failed = entry (codes "decrypt_failed") (neg 63) (codes "Decryption failed")
get_error Code.invalid_state = entry (codes "invalid_state") (neg 64) (codes "Invalid state")
get_error Code.closed = entry (codes "closed") (neg 65) (codes "Connection closed")
get_error Code.libtorrent_error =
    entry (codes "libtorrent_error") (neg 5000) (codes "libtorrent error")
get_error Code.io_error = entry (codes "io_error") (neg 5001) (codes "I/O error")
get_error Code.http_error = entry (codes "http_error") (neg 5002) (codes "HTTP error")

-- The name of one code, and otherwise what the later codes give.
unfoldable pub try_code : Bytes → Code → Option Code → Option Code
try_code name code rest = if bytes_eq name (get_error code).name then some code else rest

-- `Find`.
unfoldable pub find_error : Bytes → Option Code
find_error name = try_code name Code.parse_error (
    try_code name Code.invalid_request (
      try_code name Code.method_not_found (
        try_code name Code.invalid_params (
          try_code name Code.internal_error (
            try_code name Code.permission_denied (
              try_code name Code.session_not_found (
                try_code name Code.session_not_loaded (
                  try_code name Code.torrent_not_found (
                    try_code name Code.torrent_already_added (
                      try_code name Code.torrent_no_metadata (
                        try_code name Code.torrent_add_failed (
                          try_code name Code.preset_not_found (
                            try_code name Code.already_registered (
                              try_code name Code.decode_error (
                                try_code name Code.decrypt_failed (
                                  try_code name Code.invalid_state (
                                    try_code name Code.closed (
                                      try_code name Code.libtorrent_error (
                                        try_code name Code.io_error
                                          (try_code name Code.http_error none))))))))))))))))))))

-- A name finds the error that has it: every error of the registry is found by its own name.
pub find_error-get_error : (c : Code) → find_error (get_error c).name ≡ some c
unfolding find_error try_code get_error bytes_eq
find_error-get_error c = elim c as (λ c. find_error (get_error c).name ≡ some c) [
  | Code.parse_error ↦ refl
  | Code.invalid_request ↦ refl
  | Code.method_not_found ↦ refl
  | Code.invalid_params ↦ refl
  | Code.internal_error ↦ refl
  | Code.permission_denied ↦ refl
  | Code.session_not_found ↦ refl
  | Code.session_not_loaded ↦ refl
  | Code.torrent_not_found ↦ refl
  | Code.torrent_already_added ↦ refl
  | Code.torrent_no_metadata ↦ refl
  | Code.torrent_add_failed ↦ refl
  | Code.preset_not_found ↦ refl
  | Code.already_registered ↦ refl
  | Code.decode_error ↦ refl
  | Code.decrypt_failed ↦ refl
  | Code.invalid_state ↦ refl
  | Code.closed ↦ refl
  | Code.libtorrent_error ↦ refl
  | Code.io_error ↦ refl
  | Code.http_error ↦ refl
]
