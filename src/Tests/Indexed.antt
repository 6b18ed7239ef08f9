-- ===== src/Tests/Indexed.antt =====
-- Chunks of an index and distances of the search at work.
use gesetzeswache.Prelude.{◌≡◌, ◌≤◌, ◌↔◌, ℕ, leb, refl, String, some, List, [], ◌∷◌, Distinct, map}
use gesetzeswache.Text.{itoa}
use gesetzeswache.Normalize.Sgb.{parse_sgb_book_query}
use gesetzeswache.Search.{
  Candidate, levenshtein, rows, first_row, next_row, filter_sgb_book_candidates, resolve_ranked,
  sgb_book_number,
}
use gesetzeswache.Search.Distance.{
  Edits, no_edits, kept, deleted, inserted, reversed, levenshtein-least-Edits,
}
use gesetzeswache.Search.Books.{IsAnswer, resolve_ranked-best_iff}
use gesetzeswache.Tests.Served.{law_of}
use gesetzeswache.Export.Chunks.{IndexChunk, free_id, assigned_id, dedupe_ids, dedupe_chunk_ids}
use gesetzeswache.Export.Chunks.Assigned.{chunk_ids, unlabelled, dedupe_chunk_ids-Distinct}

abbrev chunk : String → IndexChunk
chunk id = record {
  chunk_id = id;
  text = "";
  law_id = "xg";
  law_name = "";
  instrument_kind = "gesetz";
  section_ref = "§ 1";
  section_name = "";
  parent_law_id = "";
  parent_section_hint = "";
}

abbrev colliding : List IndexChunk
colliding = chunk "a" ∷ chunk "a-2" ∷ chunk "a" ∷ []

colliding_ids : dedupe_chunk_ids colliding ≡ some (chunk "a" ∷ chunk "a-2" ∷ chunk "a-3" ∷ [])
unfolding dedupe_chunk_ids dedupe_ids assigned_id free_id itoa
colliding_ids = refl

dedupe_chunk_ids-Distinct_example :
    (out : List IndexChunk) × (dedupe_chunk_ids colliding ≡ some out)
    × Distinct (chunk_ids out)
    × (map unlabelled out ≡ map unlabelled colliding)
dedupe_chunk_ids-Distinct_example = dedupe_chunk_ids-Distinct colliding

swapped : levenshtein "stgb" "sgbt" ≡ 2
unfolding levenshtein rows first_row next_row
swapped = refl

swapped-Edits : Edits (reversed [] "stgb") (reversed [] "sgbt") 2
swapped-Edits = inserted (kept refl (kept refl (deleted (kept refl no_edits))))

levenshtein-least-Edits_example :
    Edits (reversed [] "stgb") (reversed [] "sgbt") (levenshtein "stgb" "sgbt")
    × (levenshtein "stgb" "sgbt" ≤ 2)
levenshtein-least-Edits_example = levenshtein-least-Edits "stgb" "sgbt" 2 swapped-Edits

abbrev candidate : String → ℕ → Candidate ℕ
candidate id score = record { law = law_of id; score = score }

abbrev found : List (Candidate ℕ)
found = candidate "sgb_5" 95 ∷ candidate "sgb_11" 80 ∷ []

book_five : parse_sgb_book_query "SGB V" ≡ some 5
unfolding parse_sgb_book_query
book_five = refl

resolve_ranked-best_example :
    ((resolve_ranked (λ score. leb 99 score) "SGB V" found).best ≡ some (candidate "sgb_5" 95))
    ↔ IsAnswer (λ score. leb 99 score) (parse_sgb_book_query "SGB V") found (candidate "sgb_5" 95)
resolve_ranked-best_example =
    resolve_ranked-best_iff (λ score. leb 99 score) "SGB V" found (candidate "sgb_5" 95)

answered : (resolve_ranked (λ score. leb 99 score) "SGB V" found).best ≡ some (candidate "sgb_5" 95)
unfolding resolve_ranked parse_sgb_book_query filter_sgb_book_candidates sgb_book_number
answered = refl
