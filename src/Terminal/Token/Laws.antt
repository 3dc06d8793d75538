-- ===== src/Terminal/Token/Laws.antt =====
-- What an accepted token carries.
use aut_oscan_engine.Prelude.{
  ℕ, ◌≡◌, ◌≤◌, ◌≢◌, true, false, [], ◌∷◌, ◌++◌, some, Option-cases, inl, inr, arith,
}
use aut_oscan_engine.Prelude.Text.{Bytes, bytes_eq_iff}
use aut_oscan_engine.Terminal.Token.{
  ℤ, pos, negsuc, Claims, Decoders, accepted, cut, is_session_id, is_incomplete, is_past,
  clamp_panes, check_claims, read_claims, parse_token,
}

cut_lem : (sep : ℕ) (s a b : Bytes) → cut sep s ≡ some (a, b) → s ≡ a ++ (sep ∷ b)
unfolding cut
cut_lem sep [] a b h = ground arith
cut_lem sep (c ∷ s) a b h = elim (Option-cases (cut sep s)) [
  | inl e ↦ ground arith
  | inr ((x, y), e) ↦ ground (arith, cut_lem sep s x y e)
]

-- The panes of a claim are a number from 1 to 4.
abbrev pub IsPaneCount : ℤ → Type 0
IsPaneCount (pos n) = (1 ≤ n) × (n ≤ 4)
IsPaneCount (negsuc n) = ⊥

clamp_panes-IsPaneCount : (p : ℤ) → IsPaneCount (clamp_panes p)
unfolding clamp_panes
clamp_panes-IsPaneCount (pos n) = ground arith
clamp_panes-IsPaneCount (negsuc n) = ground arith

-- Claims that pass every check of the parser.
abbrev pub IsGranted : ℕ → Claims → Type 0
IsGranted now c =
    (is_incomplete c ≡ false)
    × (is_past now c.exp ≡ false)
    × (is_session_id c.session_id ≡ true)
    × IsPaneCount c.panes

-- The claims with their panes clamped.
abbrev pub granted : Claims → Claims
granted raw = record raw { panes = clamp_panes raw.panes }

check_claims-IsGranted :
    (now : ℕ) (raw c : Claims)
    → check_claims now raw ≡ accepted c
    → (c ≡ granted raw) × IsGranted now (granted raw)
unfolding check_claims is_incomplete
check_claims-IsGranted now raw c h = ground (arith, clamp_panes-IsPaneCount raw.panes)

read_claims_lem :
    (lib : Decoders) (now : ℕ) (payload : Bytes) (c : Claims)
    → read_claims lib now payload ≡ accepted c
    → (body : Bytes) × (raw : Claims) × (lib.decode_payload payload ≡ some body)
      × (lib.unmarshal body ≡ some raw)
      × (check_claims now raw ≡ accepted c)
unfolding read_claims
read_claims_lem lib now payload c h = elim (Option-cases (lib.decode_payload payload)) [
  | inl e ↦ ground (arith, e)
  | inr (body, e) ↦ elim (Option-cases (lib.unmarshal body)) [
    | inl f ↦ ground (arith, e, f)
    | inr (raw, f) ↦ (body, raw, e, f, ground (arith, e, f))
  ]
]

-- What an accepted token is made of.
abbrev pub IsAccepted : Decoders → ℕ → Bytes → Bytes → Claims → Type 0
IsAccepted lib now secret token c =
    (payload sig body : Bytes) × (raw : Claims) × (token ≡ payload ++ (46 ∷ sig))
    × (payload ≢ [])
    × (sig ≢ [])
    × (lib.signature secret payload ≡ sig)
    × (lib.decode_payload payload ≡ some body)
    × (lib.unmarshal body ≡ some raw)
    × (c ≡ granted raw)
    × IsGranted now (granted raw)

parse_token-cut :
    (lib : Decoders) (now : ℕ) (secret token payload sig : Bytes) (c : Claims)
    → cut 46 token ≡ some (payload, sig)
    → parse_token lib now secret token ≡ accepted c
    → (payload ≢ [])
      × (sig ≢ [])
      × (lib.signature secret payload ≡ sig)
      × (read_claims lib now payload ≡ accepted c)
unfolding parse_token
parse_token-cut lib now secret token payload sig c e h = ground (
  arith,
  e,
  h,
  bytes_eq_iff payload [],
  bytes_eq_iff sig [],
  bytes_eq_iff (lib.signature secret payload) sig,
)

-- A token is accepted only if it is a nonempty payload, a dot and the payload's signature under the
-- server's secret, the payload decodes to claims that name a solution's assignment or a run and a
-- submission, that are not expired and whose session id has 1 to 64 characters of the safe class;
-- the claims that are returned are those, with the number of panes clamped to between 1 and 4.
pub parse_token-IsAccepted :
    (lib : Decoders) (now : ℕ) (secret token : Bytes) (c : Claims)
    → parse_token lib now secret token ≡ accepted c
    → IsAccepted lib now secret token c
unfolding parse_token
parse_token-IsAccepted lib now secret token c h = elim (Option-cases (cut 46 token)) [
  | inl e ↦ ground (arith, e)
  | inr ((payload, sig), e) ↦
      let (p, s, m, r) = parse_token-cut lib now secret token payload sig c e h in
      let (body, raw, d, u, k) = read_claims_lem lib now payload c r in
      let (same, granted) = check_claims-IsGranted now raw c k in
      (payload, sig, body, raw, cut_lem 46 token payload sig e, p, s, m, d, u, same, granted)
]
