-- ===== src/Limits.antt =====
-- The limit on request bodies: backend/src/app/core/limits.py.
pub mod Headers
pub mod Paths
pub mod Laws
mod Tests
use normeon_german_technical.Prelude.{
  ◌/◌, ℕ, ◌+◌, ◌-◌, Text, txt, Bool, true, false, not, ◌&&◌, ◌||◌, ◌==◌, Option, none, some, List,
  [], ◌∷◌, ◌++◌, leb, ltb, contains, map, length, if◌then◌else◌, nat_eq, list_eq,
}
use normeon_german_technical.Prelude.Dict.{Dict, insert, lookup, get_or}
use normeon_german_technical.Prelude.Digits.{show, value}
use normeon_german_technical.Prompts.{occurs}

abbrev pub upload_path : Text
upload_path = txt "/api/v1/documents"

abbrev pub body_methods : List Text
body_methods = txt "POST" ∷ txt "PUT" ∷ txt "PATCH" ∷ []

-- `k.lower()`, of bytes
abbrev pub lower : Text → Text
lower [] = []
lower (c ∷ text) = (if leb 65 c && leb c 90 then c + 32 else c) ∷ lower text

-- `path.rstrip("/")`
abbrev pub rstrip_slash : Text → Text
rstrip_slash [] = []
rstrip_slash (c ∷ text) =
    let rest = rstrip_slash text in
    elim rest [ [] ↦ if c == b'/' then [] else (c ∷ []) | x ∷ xs ↦ c ∷ x ∷ xs ]

-- `declared.isdigit()`, of bytes
abbrev pub all_digits : Text → Bool
all_digits [] = true
all_digits (c ∷ text) = leb 48 c && (leb c 57 && all_digits text)

abbrev pub is_decimal : Text → Bool
is_decimal [] = false
is_decimal (c ∷ text) = all_digits (c ∷ text)

-- `{k.lower(): v for k, v in scope["headers"]}`
unfoldable pub header_dict : List (Text × Text) → Dict Text Text → Dict Text Text
unfolding nat_eq list_eq
header_dict [] headers = headers
header_dict ((k, v) ∷ raw) headers = header_dict raw (insert (lower k) v headers)

-- `_size`
unfoldable pub size : ℕ → Text
unfolding show
size n = if leb 1048576 n then show (n / 1048576) ++ txt " MB" else show (n / 1024) ++ txt " KB"

-- What `__call__` does with a request: hand it to the application, raise a ValueError, or answer
-- with a status, a code and a detail.
pub data Verdict : Type 0 where
  admitted : Verdict
  raised : Verdict
  refused : ℕ → Text → Text → Verdict

-- `Content-Length`, or the lack of it, against a limit. `int` raises a ValueError on a text of more
-- than 4300 digits.
unfoldable pub check_length : ℕ → Dict Text Text → Verdict
unfolding size occurs nat_eq list_eq
check_length limit headers = elim (lookup (txt "content-length") headers) [
  | none ↦
      if occurs (txt "chunked") (lower (get_or (txt "transfer-encoding") [] headers))
      then refused 411 (txt "length_required") (txt "send a Content-Length header")
      else admitted
  | some declared ↦
      if not (is_decimal declared)
      then refused 400 (txt "bad_request") (txt "invalid Content-Length header")
      else if ltb 4300 (length declared)
      then raised
      else if ltb limit (value 0 declared)
      then refused 413 (txt "upload_too_large")
          (txt "at most " ++ (size limit ++ txt " are accepted"))
      else admitted
]

-- `BodySizeLimit.__call__` on an HTTP request.
unfoldable pub check_body : ℕ → ℕ → Text → Text → List (Text × Text) → Verdict
unfolding check_length header_dict nat_eq list_eq
check_body max_upload_bytes max_request_bytes method path raw =
    if not (contains body_methods method)
    then admitted
    else check_length
        (if rstrip_slash path == upload_path then max_upload_bytes else max_request_bytes)
        (header_dict raw [])
