-- ===== src/Ats/Resolver/Slugs.antt =====
-- The names that a board may have: `slug_candidates` of app/services/radar/resolver.py.
use ai_career_os.Common.{
  ℕ, zero, suc, ◌≤◌, String, ◌≡◌, refl, sym, ap, subst, Bool, true, false, not, ◌&&◌, List, [], ◌∷◌,
  str_eq, any, length, take, length-take-le, Bool-cases, inl, inr, if_true, if_false, no_two,
  no_two-last, or_false, and_true, not-true, any-last,
}
use ai_career_os.Common.Text.{strip}
use ai_career_os.Ats.Resolver.{
  ResolverEnv, add_candidate, add_head, slug_candidates, max_slug_candidates,
}

-- no text is empty, and none stands twice
abbrev pub apart : List String → Bool
apart names = not (any (λ s. str_eq s "") names) && no_two (λ a b. str_eq b a) names

and_intro : (a b : Bool) → a ≡ true → b ≡ true → (a && b) ≡ true
and_intro a b h k = rw h k

add_candidate-apart :
    (names : List String) (name : String)
    → apart names ≡ true
    → apart (add_candidate names name) ≡ true
add_candidate-apart names name h =
    elim (Bool-cases (not (str_eq name "") && not (any (λ c. str_eq name c) names))) [
      | inl fresh ↦
          let (full, new) =
            and_true (not (str_eq name "")) (not (any (λ c. str_eq name c) names)) fresh in
          let (all_full, distinct) =
            and_true (not (any (λ s. str_eq s "") names)) (no_two (λ a b. str_eq b a) names) h in
          subst (λ cs. apart cs ≡ true) (sym (if_true _ _ fresh))
            (and_intro _ _
              (ap not (
                any-last (λ s. str_eq s "") names name
                  (not-true (any (λ s. str_eq s "") names) all_full)
                  (not-true (str_eq name "") full)))
              (no_two-last (λ a b. str_eq b a) names name distinct
                (not-true (any (λ c. str_eq name c) names) new)))
      | inr known ↦ subst (λ cs. apart cs ≡ true) (sym (if_false _ _ known)) h
    ]

any-take :
    (p : String → Bool) (n : ℕ) (xs : List String) → any p xs ≡ false → any p (take n xs) ≡ false
unfolding take
any-take p zero xs h = refl
any-take p (suc n) [] h = refl
any-take p (suc n) (x ∷ xs) h =
    let (first, later) = or_false (p x) (any p xs) h in rw first (any-take p n xs later)

no_two-take :
    (r : String → String → Bool) (n : ℕ) (xs : List String)
    → no_two r xs ≡ true
    → no_two r (take n xs) ≡ true
unfolding take
no_two-take r zero xs h = refl
no_two-take r (suc n) [] h = refl
no_two-take r (suc n) (x ∷ xs) h =
    let (first, later) = and_true (not (any (r x) xs)) (no_two r xs) h in
    and_intro _ _ (ap not (any-take (r x) n xs (not-true (any (r x) xs) first)))
      (no_two-take r n xs later)

apart-take : (n : ℕ) (names : List String) → apart names ≡ true → apart (take n names) ≡ true
apart-take n names h =
    let (full, distinct) =
      and_true (not (any (λ s. str_eq s "") names)) (no_two (λ a b. str_eq b a) names) h in
    and_intro _ _
      (ap not (any-take (λ s. str_eq s "") n names (not-true (any (λ s. str_eq s "") names) full)))
      (no_two-take (λ a b. str_eq b a) n names distinct)

-- A company's name gives at most three tokens, none of them empty and no two the same.
pub slug_candidates-apart :
    (env : ResolverEnv) (name : String)
    → (apart (slug_candidates env name) ≡ true) × (length (slug_candidates env name) ≤ 3)
unfolding slug_candidates
slug_candidates-apart env name = (
  apart-take max_slug_candidates (add_head env tried (env.split cleaned))
      (with_head tried (env.split cleaned) two),
  length-take-le max_slug_candidates _,
)
  where
    cleaned : String
    cleaned = env.drop_suffixes (env.casefold (strip name))

    compact : String
    compact = env.sub_non_slug "" cleaned

    hyphenated : String
    hyphenated = env.strip_dashes (env.sub_non_slug "-" cleaned)

    tried : List String
    tried = add_candidate (add_candidate [] compact) hyphenated

    two : apart tried ≡ true
    two =
        add_candidate-apart (add_candidate [] compact) hyphenated
          (add_candidate-apart [] compact refl)

    with_head :
        (names : List String) (words : List String)
        → apart names ≡ true
        → apart (add_head env names words) ≡ true
    with_head names [] h = h
    with_head names (word ∷ words) h = add_candidate-apart names (env.sub_non_slug "" word) h
