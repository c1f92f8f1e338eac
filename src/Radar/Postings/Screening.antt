-- ===== src/Radar/Postings/Screening.antt =====
-- The screening of the rows that wait for it (`_unscreened_postings`, `_screen`), written back.
use ai_career_os.Common.{
  ℕ, ◌≡◌, refl, sym, ap, all, map, ◌&&◌, ◌∙◌, subst, true, Option, some, List, [], ◌∷◌, arith, ◌==◌,
  leb, Bool-cases, Option-cases, inl, inr, ◌⊎◌, All, filter,
}
use ai_career_os.Radar.Model.{Posting, PostingState, PostingScreenResult, is_new}
use ai_career_os.Radar.Screener.Loop.{Client, with_answer, Scored, none_left, left_alone, got_score}
use ai_career_os.Radar.Postings.{
  insert_by_age, oldest_first, is_unscreened, unscreened_postings, written_over,
}
use mathlib.Core.Path.{ap₂}
use ai_career_os.Radar.Database.{Database, fits_columns}
use ai_career_os.Radar.Postings.Rows.{
  Keeps, Keeps-refl, find_row, Found, distinct_ids, distinct_ids-Found,
}
use ai_career_os.Radar.Postings.Ids.{KeepsAll}

-- the rows are the table's own, and wait for a score
abbrev pub Pending : List Posting → List Posting → Type 0
Pending rows = All (λ p. (find_row p.id rows ≡ some p) × (p.state ≡ PostingState.new))

new-state : (s : PostingState) → is_new s ≡ true → s ≡ PostingState.new
new-state PostingState.new h = refl
new-state PostingState.screened h = cc
new-state PostingState.promoted h = cc
new-state PostingState.dismissed h = cc

filter-Pending :
    (company_id : ℕ) (rows ps : List Posting)
    → Found rows ps
    → Pending rows (filter (is_unscreened company_id) ps)
filter-Pending company_id rows [] f = tt
filter-Pending company_id rows (p ∷ ps) f = elim (Bool-cases (is_unscreened company_id p)) [
  | inl e ↦ rw e ((f.0, new-state p.state (ground arith)), filter-Pending company_id rows ps f.1)
  | inr e ↦ rw e (filter-Pending company_id rows ps f.1)
]

insert-Pending :
    (rows : List Posting) (p : Posting) (ps : List Posting)
    → (find_row p.id rows ≡ some p) × (p.state ≡ PostingState.new)
    → Pending rows ps
    → Pending rows (insert_by_age p ps)
unfolding insert_by_age
insert-Pending rows p [] h k = (h, tt)
insert-Pending rows p (q ∷ qs) h k = elim (Bool-cases (leb p.first_seen_at q.first_seen_at)) [
  | inl e ↦ rw e (h, k)
  | inr e ↦ rw e (k.0, insert-Pending rows p qs h k.1)
]

oldest_first-Pending : (rows ps : List Posting) → Pending rows ps → Pending rows (oldest_first ps)
unfolding oldest_first
oldest_first-Pending rows [] h = tt
oldest_first-Pending rows (p ∷ ps) h =
    insert-Pending rows p (oldest_first ps) h.0 (oldest_first-Pending rows ps h.1)

pub unscreened_postings-Pending :
    (company_id : ℕ) (db : Database)
    → distinct_ids db.postings ≡ true
    → Pending db.postings (unscreened_postings company_id db)
unfolding unscreened_postings
unscreened_postings-Pending company_id db h =
    oldest_first-Pending db.postings _
      (filter-Pending company_id db.postings db.postings (distinct_ids-Found db.postings h))

-- what a screened row was before
Source : ℕ → List Posting → Posting → Type 0
Source id rows q =
    (p : Posting) × (find_row id rows ≡ some p)
    × (p.state ≡ PostingState.new)
    × ((q ≡ p) ⊎ ((r : PostingScreenResult) × (q ≡ with_answer p r)))

same_row :
    (id : ℕ) (rows : List Posting) (p : Posting)
    → (p.id == id) ≡ true
    → find_row p.id rows ≡ some p
    → find_row id rows ≡ some p
same_row id rows p same found = subst (λ i. find_row i rows ≡ some p) (ground arith) found

find-Scored :
    {client : Client} (id : ℕ) (rows : List Posting) {ps qs : List Posting} {n : ℕ} (q : Posting)
    → Scored client ps qs n
    → Pending rows ps
    → find_row id qs ≡ some q
    → Source id rows q
find-Scored id rows q none_left h e = absurd cc
find-Scored id rows q (left_alone p {ps} {qs} s) h e = elim (Bool-cases (p.id == id)) [
  | inl same ↦ unfold Source in (p, same_row id rows p same h.0.0, h.0.1, inl (ground arith))
  | inr ne ↦ find-Scored id rows q s h.1 (ground arith)
]
find-Scored id rows q (got_score p r calls {ps} {qs} asked s) h e = elim (Bool-cases (p.id == id)) [
  | inl same ↦ unfold Source in (p, same_row id rows p same h.0.0, h.0.1, inr (r, (ground arith)))
  | inr ne ↦ find-Scored id rows q s h.1 (ground arith)
]

scored-Keeps :
    (p : Posting) (r : PostingScreenResult) → p.state ≡ PostingState.new → Keeps p (with_answer p r)
scored-Keeps p r new = record {
  same_id = refl;
  same_company = refl;
  same_external_id = refl;
  same_job = refl;
  same_age = refl;
  decided = inr (new, refl);
}

some-injective : {p q : Posting} → ◌≡◌ {A = Option Posting} (some p) (some q) → p ≡ q
some-injective h = cc

module _ {client : Client} (rows : List Posting) {ps qs : List Posting} {n : ℕ}
    (s : Scored client ps qs n) (h : Pending rows ps) where
  Source-Keeps :
      (row q : Posting) → find_row row.id rows ≡ some row → Source row.id rows q → Keeps row q
  unfolding Source
  Source-Keeps row q found (p, found', new, inl e) =
      subst (λ x. Keeps row x) (some-injective (sym found ∙ found') ∙ sym e) (Keeps-refl row)
  Source-Keeps row q found (p, found', new, inr (r, e)) =
      subst (λ x. Keeps x q) (some-injective (sym found' ∙ found))
        (subst (λ x. Keeps p x) (sym e) (scored-Keeps p r new))

  written_over-Keeps :
      (row : Posting) → find_row row.id rows ≡ some row → Keeps row (written_over qs row)
  written_over-Keeps row found = elim (Option-cases (find_row row.id qs)) [
    | inl e ↦ rw (e, written_over) (Keeps-refl row)
    | inr (q, e) ↦ rw (e, written_over) (Source-Keeps row q found (find-Scored row.id rows q s h e))
  ]

  Source-fits :
      (row q : Posting)
      → find_row row.id rows ≡ some row
      → Source row.id rows q
      → fits_columns q ≡ fits_columns row
  unfolding Source
  Source-fits row q found (p, found', new, inl e) =
      ap fits_columns (e ∙ some-injective (sym found' ∙ found))
  Source-fits row q found (p, found', new, inr (r, e)) =
      ap fits_columns e
      ∙ (unfold fits_columns in ap fits_columns (some-injective (sym found' ∙ found)))

  written_over-fits :
      (row : Posting)
      → find_row row.id rows ≡ some row
      → fits_columns (written_over qs row) ≡ fits_columns row
  written_over-fits row found = elim (Option-cases (find_row row.id qs)) [
    | inl e ↦ rw (e, written_over) refl
    | inr (q, e) ↦ rw (e, written_over) (Source-fits row q found (find-Scored row.id rows q s h e))
  ]

  pub written_over-all-fits :
      (every : List Posting)
      → Found rows every
      → all fits_columns (map (written_over qs) every) ≡ all fits_columns every
  written_over-all-fits [] f = refl
  written_over-all-fits (row ∷ every) f =
      ap₂ (λ a b. a && b) (written_over-fits row f.0) (written_over-all-fits every f.1)

  pub written_over-KeepsAll : (all : List Posting) → Found rows all → KeepsAll (written_over qs) all
  written_over-KeepsAll [] f = tt
  written_over-KeepsAll (row ∷ all) f = (written_over-Keeps row f.0, written_over-KeepsAll all f.1)
