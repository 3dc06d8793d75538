-- ===== src/Terminal/Token.antt =====
-- ParseToken of internal/terminal/token.go. The HMAC with its encoding, the base64 decoder and the
-- JSON decoder are parameters; the clock is an argument, in seconds.
pub mod Laws
use aut_oscan_engine.Prelude.{
  ℕ, zero, suc, Bool, true, false, not, ◌&&◌, ◌||◌, List, [], ◌∷◌, Option, none, some, ltb, leb,
  ◌==◌, if◌then◌else◌, length,
}
use aut_oscan_engine.Prelude.Text.{Bytes, codes, bytes_eq}

-- Go's int.
pub data ℤ : Type 0 where
  pos negsuc : ℕ → ℤ

pub record Claims : Type 0 where
  pub run_id : Bytes
  pub submission_id : Bytes
  pub assignment : Bytes
  pub solution : Bool
  pub student : Bytes
  pub session_id : Bytes
  pub panes : ℤ
  pub exp : ℤ

pub data TokenError : Type 0 where
  malformed_token invalid_signature malformed_payload malformed_claims : TokenError
  incomplete_claims token_expired invalid_session_id : TokenError

pub data Parsed : Type 0 where
  refused : TokenError → Parsed
  accepted : Claims → Parsed

-- The encoded HMAC of a payload under a secret, and the two decoders.
pub record Decoders : Type 0 where
  pub signature : Bytes → Bytes → Bytes
  pub decode_payload : Bytes → Option Bytes
  pub unmarshal : Bytes → Option Claims

abbrev pub max_panes_per_session : ℕ
max_panes_per_session = 4

-- strings.Cut.
unfoldable pub cut : ℕ → Bytes → Option (Bytes × Bytes)
cut sep [] = none
cut sep (c ∷ s) =
    let rest = cut sep s in
    if c == sep then some ([], s) else elim rest [ none ↦ none | some (a, b) ↦ some (c ∷ a, b) ]

-- The class [A-Za-z0-9_-].
unfoldable pub is_id_char : ℕ → Bool
is_id_char c =
    leb 65 c && leb c 90 || leb 97 c && leb c 122 || leb 48 c && leb c 57 || c == 95 || c == 45

unfoldable pub all_id_chars : Bytes → Bool
unfolding is_id_char
all_id_chars [] = true
all_id_chars (c ∷ s) = is_id_char c && all_id_chars s

-- What `sessionIDPattern` matches.
unfoldable pub is_session_id : Bytes → Bool
unfolding all_id_chars
is_session_id s = leb 1 (length s) && leb (length s) 64 && all_id_chars s

unfoldable pub is_incomplete : Claims → Bool
unfolding bytes_eq
is_incomplete c =
    if c.solution
    then bytes_eq c.assignment []
    else bytes_eq c.run_id [] || bytes_eq c.submission_id []

unfoldable pub is_past : ℕ → ℤ → Bool
is_past now (pos e) = ltb e now
is_past now (negsuc e) = true

unfoldable pub clamp_panes : ℤ → ℤ
clamp_panes (negsuc n) = pos 1
clamp_panes (pos n) =
    if ltb n 1
    then pos 1
    else if ltb max_panes_per_session n
    then pos max_panes_per_session
    else pos n

unfoldable pub check_claims : ℕ → Claims → Parsed
unfolding is_incomplete is_past is_session_id clamp_panes
check_claims now c =
    if is_incomplete c
    then refused incomplete_claims
    else if is_past now c.exp
    then refused token_expired
    else if not (is_session_id c.session_id)
    then refused invalid_session_id
    else accepted (record c { panes = clamp_panes c.panes })

unfoldable pub read_claims : Decoders → ℕ → Bytes → Parsed
unfolding check_claims
read_claims lib now payload = elim (lib.decode_payload payload) [
  | none ↦ refused malformed_payload
  | some body ↦ elim (lib.unmarshal body) [
    | none ↦ refused malformed_claims
    | some c ↦ check_claims now c
  ]
]

unfoldable pub parse_token : Decoders → ℕ → Bytes → Bytes → Parsed
unfolding cut bytes_eq read_claims
parse_token lib now secret token = elim (cut 46 token) [
  | none ↦ refused malformed_token
  | some (payload, sig) ↦
      if bytes_eq payload [] || bytes_eq sig []
      then refused malformed_token
      else if not (bytes_eq (lib.signature secret payload) sig)
      then refused invalid_signature
      else read_claims lib now payload
]
