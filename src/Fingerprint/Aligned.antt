-- ===== src/Fingerprint/Aligned.antt =====
-- A fingerprint's lists are aligned, its count is that of its nonzero tokens, and its zeros are the
-- function boundaries.
use aut_oscan_engine.Prelude.{
  ℕ, ◌+◌, ◌≡◌, ◌≢◌, refl, subst, some_eq, not-none-eq-some, Option-cases, inl, inr, Bool, List, [],
  ◌∷◌, ◌++◌, Option, none, some, arith, length, length-append,
}
use aut_oscan_engine.Prelude.Text.{Bytes}
use aut_oscan_engine.Tiling.Marking.{count_tokens}
use aut_oscan_engine.Fingerprint.{Node, Token, FileFingerprint, hash_token}
use aut_oscan_engine.Fingerprint.Collect.{
  hashes, token_spans, separator, separator_span, add_function, add_functions, normalize_tokens,
  empty_fingerprint, fingerprint_content, mem_bytes, declared_names, function_defs,
}

pub record IsAligned (fp : FileFingerprint) : Type 0 where
  pub aligned : length fp.tokens ≡ length fp.spans
  pub counted : count_tokens fp.tokens ≡ fp.token_count

-- A hash is odd, so it is never the separator.
pub hash_token-ne-zero : (text : Bytes) → hash_token text ≢ 0
unfolding hash_token
hash_token-ne-zero text = omega arith

count_tokens-append : (xs ys : List ℕ) → count_tokens (xs ++ ys) ≡ count_tokens xs + count_tokens ys
unfolding count_tokens
count_tokens-append [] ys = omega arith
count_tokens-append (x ∷ xs) ys = ground (arith, count_tokens-append xs ys)

count_tokens-hashes : (ts : List Token) → count_tokens (hashes ts) ≡ length ts
unfolding hashes count_tokens
count_tokens-hashes [] = refl
count_tokens-hashes (t ∷ ts) = ground (arith, hash_token-ne-zero t.text, count_tokens-hashes ts)

length-hashes : (ts : List Token) → length (hashes ts) ≡ length ts
unfolding hashes
length-hashes [] = refl
length-hashes (t ∷ ts) = omega (arith, length-hashes ts)

length-token_spans : (ts : List Token) → length (token_spans ts) ≡ length ts
unfolding token_spans
length-token_spans [] = refl
length-token_spans (t ∷ ts) = omega (arith, length-token_spans ts)

separator_laws :
    (xs : List ℕ)
    → (count_tokens (separator xs) ≡ 0) × (length (separator xs) ≡ length (separator_span xs))
unfolding count_tokens
separator_laws [] = (refl, refl)
separator_laws (x ∷ xs) = (refl, refl)

add_function-IsAligned :
    (m : ℕ) (ts : List Token) (fp : FileFingerprint)
    → IsAligned fp
    → IsAligned (add_function m ts fp)
unfolding add_function
add_function-IsAligned m ts fp v = ground (
  arith,
  length-append fp.tokens (separator fp.tokens ++ hashes ts),
  length-append (separator fp.tokens) (hashes ts),
  length-append fp.spans (separator_span fp.tokens ++ token_spans ts),
  length-append (separator_span fp.tokens) (token_spans ts),
  count_tokens-append fp.tokens (separator fp.tokens ++ hashes ts),
  count_tokens-append (separator fp.tokens) (hashes ts),
  separator_laws fp.tokens,
  length-hashes ts,
  length-token_spans ts,
  count_tokens-hashes ts,
)

add_functions-IsAligned :
    (content : Bytes) (declared : Bytes → Bool) (m : ℕ) (ns : List Node) (fp : FileFingerprint)
    → IsAligned fp
    → IsAligned (add_functions content declared m ns fp)
unfolding add_functions
add_functions-IsAligned content declared m [] fp v = v
add_functions-IsAligned content declared m (n ∷ ns) fp v =
    add_functions-IsAligned content declared m ns _
      (add_function-IsAligned m (normalize_tokens content declared none n) fp v)

-- Whatever tree the parser returns, the tokens and spans of a fingerprint have the same length, and
-- TokenCount is the number of nonzero tokens.
pub fingerprint_content-IsAligned :
    (parse : Bytes → Option Node) (name_field : Node → Option Node) (content : Bytes) (m : ℕ)
    (fp : FileFingerprint)
    → fingerprint_content parse name_field content m ≡ some fp
    → IsAligned fp
unfolding fingerprint_content count_tokens
fingerprint_content-IsAligned parse name_field content m fp h =
    elim (Option-cases (parse content)) [
      | inl e ↦ absurd (not-none-eq-some (rw (e, fingerprint_content) at h))
      | inr (root, e) ↦
          let declared = mem_bytes (declared_names name_field content none root) in
          subst IsAligned (some_eq (rw (e, fingerprint_content) at h)) (
            add_functions-IsAligned content declared m (function_defs root) empty_fingerprint
              (record { aligned = refl; counted = refl }))
    ]
