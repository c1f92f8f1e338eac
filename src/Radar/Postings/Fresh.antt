-- ===== src/Radar/Postings/Fresh.antt =====
-- The external ids of a board, and those that `_store_postings` of app/services/radar/poller.py
-- adds.
use ai_career_os.Common.{
  ◌+◌, ◌≤◌, String, ◌≡◌, refl, Bool, true, false, List, [], ◌∷◌, ◌++◌, map, arith, str_eq, filter,
  count_if, Within, count_if-filter-le, count_if-append, all, not, eq_iff, eq_refl,
}
use ai_career_os.Radar.Model.{RawPosting}
use ai_career_os.Radar.Postings.{mem_str, is_fresh}
use ai_career_os.Radar.Postings.Keys.{distinct, fresh_ids}

-- the external ids of a board
abbrev pub ids : List RawPosting → List String
ids items = map (λ item. item.external_id) items

abbrev has_id : String → RawPosting → Bool
has_id x item = str_eq x item.external_id

absent-count :
    (x : String) (items : List RawPosting)
    → mem_str x (ids items) ≡ false
    → count_if (has_id x) items ≡ 0
absent-count x [] h = refl
absent-count x (item ∷ items) h = ground (arith, absent-count x items)

count-absent :
    (x : String) (items : List RawPosting)
    → count_if (has_id x) items ≡ 0
    → mem_str x (ids items) ≡ false
count-absent x [] h = refl
count-absent x (item ∷ items) h = ground (arith, count-absent x items)

distinct-count :
    (items : List RawPosting)
    → distinct (ids items) ≡ true
    → (x : String) → count_if (has_id x) items ≤ 1
distinct-count [] h x = omega arith
distinct-count (item ∷ items) h x = ground (
  arith,
  distinct-count items,
  distinct-count items (ground arith) x,
  absent-count item.external_id items,
  eq_iff x item.external_id,
)

count-distinct :
    (items : List RawPosting)
    → ((x : String) → count_if (has_id x) items ≤ 1)
    → distinct (ids items) ≡ true
count-distinct [] h = refl
count-distinct (item ∷ items) h = ground (
  arith,
  h item.external_id,
  eq_refl item.external_id,
  count-absent item.external_id items,
  count-distinct items (λ x. omega (arith, h x)),
)

fresh-append :
    (p : RawPosting → Bool) (known : List String) (xs ys : List RawPosting)
    → count_if p (filter (is_fresh known) (xs ++ ys))
      ≡ count_if p (filter (is_fresh known) xs) + count_if p (filter (is_fresh known) ys)
fresh-append p known [] ys = omega arith
fresh-append p known (x ∷ xs) ys = ground (arith, fresh-append p known xs ys)

known-fresh :
    (p : RawPosting → Bool) (known : List String) (xs : List RawPosting)
    → count_if p (filter (is_fresh known) (filter (λ item. mem_str item.external_id known) xs)) ≡ 0
known-fresh p known [] = refl
known-fresh p known (x ∷ xs) = ground (arith, known-fresh p known xs)

pub distinct-fresh_ids :
    (known : List String) (wants : RawPosting → Bool) (fetched relevant : List RawPosting)
    → distinct (ids fetched) ≡ true
    → Within relevant (filter (is_fresh known) (filter wants fetched))
    → distinct (
        fresh_ids known
          (filter (λ item. mem_str item.external_id known) (filter wants fetched) ++ relevant))
      ≡ true
distinct-fresh_ids known wants fetched relevant h within =
    count-distinct
      (filter (is_fresh known)
        (filter (λ item. mem_str item.external_id known) (filter wants fetched) ++ relevant))
      (λ x. omega (
        arith,
        fresh-append (has_id x) known
            (filter (λ item. mem_str item.external_id known) (filter wants fetched)) relevant,
        known-fresh (has_id x) known (filter wants fetched),
        count_if-filter-le (has_id x) (is_fresh known) relevant,
        within (has_id x),
        count_if-filter-le (has_id x) (is_fresh known) (filter wants fetched),
        count_if-filter-le (has_id x) wants fetched,
        distinct-count fetched h x,
      ))

none-count :
    (p : RawPosting → Bool) (items : List RawPosting)
    → count_if (λ item. not (p item)) items ≡ 0
    → all p items ≡ true
none-count p [] h = refl
none-count p (item ∷ items) h = ground (arith, none-count p items, h)

all-count :
    (p : RawPosting → Bool) (items : List RawPosting)
    → all p items ≡ true
    → count_if (λ item. not (p item)) items ≡ 0
all-count p [] h = refl
all-count p (item ∷ items) h = ground (arith, all-count p items, h)

-- what is true of all roles of the board is true of those that are stored
pub all-stored :
    (p : RawPosting → Bool) (known : List String) (wants : RawPosting → Bool)
    (fetched relevant : List RawPosting)
    → all p fetched ≡ true
    → Within relevant (filter (is_fresh known) (filter wants fetched))
    → all p (filter (λ item. mem_str item.external_id known) (filter wants fetched) ++ relevant)
      ≡ true
all-stored p known wants fetched relevant h within =
    let unfit : RawPosting → Bool = λ item. not (p item) in
    let old = filter (λ item. mem_str item.external_id known) (filter wants fetched) in
    none-count p (old ++ relevant) (
      omega (
        arith,
        count_if-append unfit old relevant,
        count_if-filter-le unfit (λ item. mem_str item.external_id known) (filter wants fetched),
        within unfit,
        count_if-filter-le unfit (is_fresh known) (filter wants fetched),
        count_if-filter-le unfit wants fetched,
        all-count p fetched h,
      ))
