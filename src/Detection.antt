-- ===== src/Detection.antt =====
-- The patterns of the AI dictionary in a submission: fingerprintDictionary and
-- compareSubmissionToDictionary of internal/engine/ai_detection.go, on the tiling. A share is a
-- fraction of two numbers of tokens.
pub mod Laws
use aut_oscan_engine.Prelude.{
  ℕ, suc, ◌+◌, ◌*◌, Bool, true, false, ◌&&◌, ◌||◌, List, [], ◌∷◌, ◌++◌, map, ltb, leb, ◌==◌, ◌⊎◌,
  inl, inr, if◌then◌else◌, length, replicate,
}
use aut_oscan_engine.Prelude.Text.{Bytes, codes}
use aut_oscan_engine.Policy.Dictionary.{Entry}
use aut_oscan_engine.Fingerprint.{FileFingerprint}
use aut_oscan_engine.Tiling.{Tile, mark_range, greedy_string_tiling, tiled_tokens}
use aut_oscan_engine.Similarity.{Source, CompareConfig, MatchSpan, tile_span, convert_spans}
use aut_oscan_engine.Uploads.Sources.{bytes_leb}

pub record DictionaryFingerprint : Type 0 where
  pub entry : Entry
  pub fp : FileFingerprint

pub record AiDictionaryEntryError : Type 0 where
  pub entry_id : Bytes
  pub err : Bytes

-- The share is `found` of `out_of`.
pub record AiDictionaryMatch : Type 0 where
  pub entry_id : Bytes
  pub title : Bytes
  pub found : ℕ
  pub out_of : ℕ
  pub spans : List MatchSpan

abbrev pub Usable : Type 0
Usable = List DictionaryFingerprint × List AiDictionaryEntryError

unfoldable pub add_entry : CompareConfig → Entry → Bytes ⊎ FileFingerprint → Usable → Usable
add_entry cfg e (inl err) (items, errs) = (items, record { entry_id = e.id; err = err } ∷ errs)
add_entry cfg e (inr fp) (items, errs) =
    if ltb fp.token_count cfg.min_match_tokens
    then (
      items,
      record { entry_id = e.id; err = codes "entry has no function long enough to match" } ∷ errs,
    )
    else (record { entry = e; fp = fp } ∷ items, errs)

-- `fingerprint` is fingerprintContent without a least number of tokens, or the text of its error.
unfoldable pub fingerprint_dictionary :
    (Bytes → Bytes ⊎ FileFingerprint) → CompareConfig → List Entry → Usable
unfolding add_entry
fingerprint_dictionary fingerprint cfg [] = ([], [])
fingerprint_dictionary fingerprint cfg (e ∷ es) =
    add_entry cfg e (fingerprint e.code) (fingerprint_dictionary fingerprint cfg es)

unfoldable pub cover : List Tile → List Bool → List Bool
cover [] covered = covered
cover (t ∷ ts) covered = cover ts (mark_range covered t.a t.length)

-- The loop over the patterns: matches, and which tokens of the submission they cover.
unfoldable pub match_patterns :
    Source
    → CompareConfig
    → List DictionaryFingerprint
    → List Bool
    → List AiDictionaryMatch × List Bool
unfolding greedy_string_tiling tiled_tokens tile_span cover
match_patterns sub cfg [] covered = ([], covered)
match_patterns sub cfg (d ∷ ds) covered =
    let tiles = greedy_string_tiling sub.fp.tokens d.fp.tokens cfg.min_match_tokens in
    let without = match_patterns sub cfg ds covered in
    let (matches, covered') = match_patterns sub cfg ds (cover tiles covered) in
    let found : AiDictionaryMatch = record {
      entry_id = d.entry.id;
      title = d.entry.title;
      found = tiled_tokens tiles;
      out_of = d.fp.token_count;
      spans = convert_spans sub.content (map (λ t. tile_span sub.fp t.a t.length) tiles);
    } in
    if ltb (2 * tiled_tokens tiles) d.fp.token_count then without else (found ∷ matches, covered')

-- A greater share first, and then by the entry's id.
unfoldable pub match_before : AiDictionaryMatch → AiDictionaryMatch → Bool
unfolding bytes_leb
match_before m n =
    ltb (n.found * m.out_of) (m.found * n.out_of)
    || m.found * n.out_of == n.found * m.out_of && bytes_leb m.entry_id n.entry_id

unfoldable pub insert_match : AiDictionaryMatch → List AiDictionaryMatch → List AiDictionaryMatch
unfolding match_before
insert_match m [] = m ∷ []
insert_match m (n ∷ ns) =
    let rest = insert_match m ns in if match_before m n then m ∷ n ∷ ns else n ∷ rest

unfoldable pub sort_matches : List AiDictionaryMatch → List AiDictionaryMatch
unfolding insert_match
sort_matches [] = []
sort_matches (m ∷ ms) = insert_match m (sort_matches ms)

unfoldable pub count_covered : List Bool → ℕ
count_covered [] = 0
count_covered (c ∷ cs) = let rest = count_covered cs in if c then suc rest else rest

unfoldable pub compare_submission_to_dictionary :
    Source → List DictionaryFingerprint → CompareConfig → List AiDictionaryMatch × ℕ
unfolding match_patterns sort_matches count_covered
compare_submission_to_dictionary sub ds cfg =
    let (matches, covered) = match_patterns sub cfg ds (replicate (length sub.fp.tokens) false) in
    (sort_matches matches, count_covered covered)
