-- ===== src/Radar/Api/Feed/Ranking.antt =====
-- The order and the limit of the feed, `list_postings` of app/api/radar.py.
use ai_career_os.Common.{
  ◌<◌, ◌⊎◌, Option, none, ltb, leb, ◌==◌, ◌||◌, ◌&&◌, ℕ, zero, suc, Option-cases, ◌≤◌, ◌≡◌, refl,
  sym, subst, true, false, List, [], ◌∷◌, ◌++◌, some, map, take, drop, take-append-drop, length,
  length-take-le, filter, flatten, Bool-cases, inl, inr, All, All-append, arith,
}
use mathlib.Core.List.{Permᴰ}
use mathlib.Core.List.Permᴰ
use ai_career_os.Radar.Model.{Posting, Profile, WatchedCompany}
use ai_career_os.Radar.Database.{Database, find_company}
use ai_career_os.Radar.Api.Feed.{
  PostingQuery, PostingRead, is_asked_for, with_name, matching, score_rank, comes_first,
  insert_ranked, ranked, list_postings,
}

-- A row with this score and this first sight may stand before a row with that score and that first
-- sight: a score stands before none and before a lower one, and the newer before the older.
abbrev pub MayPrecede : Option ℕ → ℕ → Option ℕ → ℕ → Type 0
MayPrecede (some a) t (some b) u = (b < a) ⊎ ((a ≡ b) × (u ≤ t))
MayPrecede (some a) t none u = Unit
MayPrecede none t (some b) u = ⊥
MayPrecede none t none u = u ≤ t

-- every row may stand before the later ones
abbrev pub IsRanked : List PostingRead → Type 0
IsRanked [] = Unit
IsRanked (p ∷ ps) =
    All
      (λ q.
        MayPrecede p.posting.screen_score p.posting.first_seen_at q.posting.screen_score
          q.posting.first_seen_at)
      ps
    × IsRanked ps

-- the same by the test that sorts
InOrder : List PostingRead → Type 0
InOrder [] = Unit
InOrder (p ∷ ps) = All (λ q. comes_first p q ≡ true) ps × InOrder ps

comes_first_sound :
    (a b : Option ℕ) (t u : ℕ)
    → (ltb (score_rank b) (score_rank a) || (score_rank a == score_rank b && leb u t)) ≡ true
    → MayPrecede a t b u
comes_first_sound (some a) (some b) t u h = elim (Bool-cases (ltb b a)) [
  | inl e ↦ inl (ground (arith, e))
  | inr e ↦ inr (ground (arith, e, h), ground (arith, e, h))
]
comes_first_sound (some a) none t u h = tt
comes_first_sound none (some b) t u h = absurd (ground (arith, h))
comes_first_sound none none t u h = ground (arith, h)

comes_first-total : (p q : PostingRead) → comes_first p q ≡ false → comes_first q p ≡ true
comes_first-total p q h = ground (arith, h)

comes_first_trans :
    (p q r : PostingRead) → comes_first p q ≡ true → comes_first q r ≡ true → comes_first p r ≡ true
comes_first_trans p q r h k = ground (arith, h, k)

insert_ranked-Permᴰ :
    (p : PostingRead) (ps : List PostingRead) → Permᴰ (insert_ranked p ps) (p ∷ ps)
unfolding insert_ranked
insert_ranked-Permᴰ p [] = Permᴰ.refl (p ∷ [])
insert_ranked-Permᴰ p (q ∷ qs) = elim (Bool-cases (comes_first p q)) [
  | inl e ↦ rw e (Permᴰ.refl (p ∷ q ∷ qs))
  | inr e ↦ rw e (Permᴰ.trans (Permᴰ.cons refl (insert_ranked-Permᴰ p qs)) (Permᴰ.swap refl refl))
]

ranked-Permᴰ : (ps : List PostingRead) → Permᴰ (ranked ps) ps
unfolding ranked
ranked-Permᴰ [] = Permᴰ.refl []
ranked-Permᴰ (p ∷ ps) =
    Permᴰ.trans (insert_ranked-Permᴰ p (ranked ps)) (Permᴰ.cons refl (ranked-Permᴰ ps))

All-after :
    (p q : PostingRead) (ps : List PostingRead)
    → comes_first p q ≡ true
    → All (λ r. comes_first q r ≡ true) ps
    → All (λ r. comes_first p r ≡ true) ps
All-after p q [] h k = tt
All-after p q (r ∷ ps) h k = (comes_first_trans p q r h k.0, All-after p q ps h k.1)

insert_ranked-after :
    (p q : PostingRead) (ps : List PostingRead)
    → comes_first q p ≡ true
    → All (λ r. comes_first q r ≡ true) ps
    → All (λ r. comes_first q r ≡ true) (insert_ranked p ps)
unfolding insert_ranked
insert_ranked-after p q [] h k = (h, tt)
insert_ranked-after p q (r ∷ ps) h k = elim (Bool-cases (comes_first p r)) [
  | inl e ↦ rw e (h, k)
  | inr e ↦ rw e (k.0, insert_ranked-after p q ps h k.1)
]

insert_ranked-InOrder :
    (p : PostingRead) (ps : List PostingRead) → InOrder ps → InOrder (insert_ranked p ps)
unfolding insert_ranked InOrder
insert_ranked-InOrder p [] h = (tt, tt)
insert_ranked-InOrder p (q ∷ qs) h = elim (Bool-cases (comes_first p q)) [
  | inl e ↦ rw e ((e, All-after p q qs e h.0), h)
  | inr e ↦
      rw e
        (insert_ranked-after p q qs (comes_first-total p q e) h.0, insert_ranked-InOrder p qs h.1)
]

ranked-InOrder : (ps : List PostingRead) → InOrder (ranked ps)
unfolding ranked InOrder
ranked-InOrder [] = tt
ranked-InOrder (p ∷ ps) = insert_ranked-InOrder p (ranked ps) (ranked-InOrder ps)

All-MayPrecede :
    (p : PostingRead) (ps : List PostingRead)
    → All (λ q. comes_first p q ≡ true) ps
    → All
        (λ q.
          MayPrecede p.posting.screen_score p.posting.first_seen_at q.posting.screen_score
            q.posting.first_seen_at)
        ps
All-MayPrecede p [] h = tt
All-MayPrecede p (q ∷ ps) h = (comes_first_sound _ _ _ _ h.0, All-MayPrecede p ps h.1)

InOrder-IsRanked : (ps : List PostingRead) → InOrder ps → IsRanked ps
unfolding InOrder
InOrder-IsRanked [] h = tt
InOrder-IsRanked (p ∷ ps) h = (All-MayPrecede p ps h.0, InOrder-IsRanked ps h.1)

-- a posting that was asked for, with the name of its company
abbrev pub IsAnswer : PostingQuery → Profile → Database → PostingRead → Type 0
IsAnswer query profile db read =
    (is_asked_for query profile read.posting ≡ true)
    × ((company : WatchedCompany) × (find_company read.posting.watched_company_id db ≡ some company)
        × (company.name ≡ read.company_name))

All-Permᴰ :
    (P : PostingRead → Type 0) {ps qs : List PostingRead} → Permᴰ ps qs → All P qs → All P ps
All-Permᴰ P Permᴰ.nil h = tt
All-Permᴰ P (Permᴰ.cons e d) h = (subst P (sym e) h.0, All-Permᴰ P d h.1)
All-Permᴰ P (Permᴰ.swap e k) h = (subst P (sym e) h.1.0, (subst P (sym k) h.0, h.1.1))
All-Permᴰ P (Permᴰ.trans d d') h = All-Permᴰ P d (All-Permᴰ P d' h)

All-take : (P : PostingRead → Type 0) (n : ℕ) (ps : List PostingRead) → All P ps → All P (take n ps)
unfolding take
All-take P zero ps h = tt
All-take P (suc n) [] h = tt
All-take P (suc n) (p ∷ ps) h = (h.0, All-take P n ps h.1)

with_name-IsAnswer :
    (query : PostingQuery) (profile : Profile) (db : Database) (row : Posting)
    → is_asked_for query profile row ≡ true
    → All (IsAnswer query profile db) (with_name db row)
with_name-IsAnswer query profile db row h =
    elim (Option-cases (find_company row.watched_company_id db)) [
      | inl e ↦ rw (e, All) tt
      | inr (company, e) ↦ rw (e, All) ((h, (company, e, refl)), tt)
    ]

flatten-IsAnswer :
    (query : PostingQuery) (profile : Profile) (db : Database) (rows : List Posting)
    → All
        (IsAnswer query profile db)
        (flatten (map (with_name db) (filter (is_asked_for query profile) rows)))
flatten-IsAnswer query profile db [] = tt
flatten-IsAnswer query profile db (row ∷ rows) =
    elim (Bool-cases (is_asked_for query profile row)) [
      | inl e ↦ rw e (
          All-append (IsAnswer query profile db) (with_name db row) _
            (with_name-IsAnswer query profile db row e) (flatten-IsAnswer query profile db rows))
      | inr e ↦ rw e (flatten-IsAnswer query profile db rows)
    ]

-- The postings that are listed, with those that the limit leaves out, are the postings asked for,
-- each once, the best score first, those without a score last, and of the same score the newest
-- first; no more are listed than the limit allows, and each was asked for and has the name of its
-- company.
pub list_postings-IsRanked :
    (query : PostingQuery) (profile : Profile) (db : Database)
    → let listed = list_postings query profile db in
      (length listed ≤ query.limit)
      × All (IsAnswer query profile db) listed
      × ((left_out : List PostingRead) × IsRanked (listed ++ left_out)
          × Permᴰ (listed ++ left_out) (matching query profile db))
unfolding list_postings matching
list_postings-IsRanked query profile db =
    let found = matching query profile db in
    let all_listed = take-append-drop query.limit (ranked found) in
    (
      length-take-le query.limit (ranked found),
      All-take (IsAnswer query profile db) query.limit (ranked found) (
          All-Permᴰ (IsAnswer query profile db) (ranked-Permᴰ found)
            (flatten-IsAnswer query profile db db.postings)),
      (
        drop query.limit (ranked found),
        subst IsRanked (sym all_listed) (InOrder-IsRanked _ (ranked-InOrder found)),
        subst (λ ps. Permᴰ ps found) (sym all_listed) (ranked-Permᴰ found),
      ),
    )
