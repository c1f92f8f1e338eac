-- ===== src/Radar/Screener/Criteria.antt =====
-- `matches_criteria` of app/services/radar/screener.py, and what a watch wants of a role.
use Prim.Native.String.{◌++◌ as ◌+++◌}
use ai_career_os.Common.{
  ◌&&◌, String, ◌≡◌, refl, not, ◌↔◌, ◌⊎◌, true, false, List, [], ◌∷◌, arith, is_empty, Bool-cases,
  inl, inr,
}
use ai_career_os.Common.Text.{Unicode, contains, search_phrases, or_blank}
use ai_career_os.Radar.Model.{RemotePreference, WatchCriteria, RawPosting}
use ai_career_os.Radar.Screener.{
  admits_remote, remote_phrases, onsite_phrases, hybrid_phrases, mentions, location_passes,
  remote_passes, matches_criteria,
}

is_empty-nil : (xs : List String) → is_empty xs ≡ true → xs ≡ []
is_empty-nil [] h = refl
is_empty-nil (x ∷ xs) h = cc

module _ (u : Unicode) where
  -- some term of the list occurs in the text, up to case
  pub data Mentions (text : String) : List String → Type 0 where
    here :
        {term : String} {terms : List String}
        → contains (u.casefold term) text ≡ true
        → Mentions text (term ∷ terms)
    there :
        {term : String} {terms : List String} → Mentions text terms → Mentions text (term ∷ terms)

  mentions→Mentions :
      (terms : List String) (text : String) → mentions u terms text ≡ true → Mentions text terms
  unfolding mentions
  mentions→Mentions [] text h = cc
  mentions→Mentions (t ∷ ts) text h = elim (Bool-cases (contains (u.casefold t) text)) [
    | inl e ↦ here e
    | inr e ↦ there (mentions→Mentions ts text (rw e at h))
  ]

  Mentions→mentions :
      (text : String) {terms : List String} → Mentions text terms → mentions u terms text ≡ true
  unfolding mentions
  Mentions→mentions text (here e) = rw e
  Mentions→mentions text (there {term = term} m) = ground (arith, Mentions→mentions text m)

  not_mentions :
      (terms : List String) (text : String) → ¬ Mentions text terms → mentions u terms text ≡ false
  not_mentions terms text h = elim (Bool-cases (mentions u terms text)) [
    | inl e ↦ absurd (h (mentions→Mentions terms text e))
    | inr e ↦ e
  ]

  -- what the remote preference asks of a posting
  abbrev pub RemoteFits : RawPosting → RemotePreference → Type 0
  RemoteFits posting RemotePreference.any = Unit
  RemoteFits posting RemotePreference.remote =
      (posting.remote_flag ≡ true)
      ⊎ (search_phrases u remote_phrases (posting.title +++ " " +++ or_blank posting.location)
          ≡ true)
  RemoteFits posting RemotePreference.onsite =
      (posting.remote_flag ≡ false)
      × (search_phrases u remote_phrases (posting.title +++ " " +++ or_blank posting.location)
          ≡ false)
  RemoteFits posting RemotePreference.hybrid =
      (search_phrases u hybrid_phrases (posting.title +++ " " +++ or_blank posting.location) ≡ true)
      ⊎ (search_phrases u onsite_phrases (posting.title +++ " " +++ or_blank posting.location)
          ≡ true)

  -- a remote role counts as near, unless the watch asks for an office
  abbrev pub NearAnyway : RawPosting → RemotePreference → Type 0
  NearAnyway posting RemotePreference.any = posting.remote_flag ≡ true
  NearAnyway posting RemotePreference.remote = posting.remote_flag ≡ true
  NearAnyway posting _ = ⊥

  -- a place that the watch names, or none named, or a remote role that counts as near
  abbrev pub Located : RawPosting → WatchCriteria → Type 0
  Located posting criteria =
      (criteria.locations ≡ [])
      ⊎ (NearAnyway posting criteria.remote
          ⊎ Mentions (u.casefold (or_blank posting.location +++ " " +++ posting.title))
              criteria.locations)

  titled_test :
      (titles : List String) (title : String)
      → (titles ≡ []) ⊎ Mentions title titles
      → (not (is_empty titles) && not (mentions u titles title)) ≡ false
  titled_test titles title (inl e) = rw e
  titled_test titles title (inr m) = ground (arith, Mentions→mentions title m)

  -- What a watch with these criteria wants of a role.
  pub record Wants (posting : RawPosting) (criteria : WatchCriteria) : Type 0 where
    pub not_excluded : ¬ Mentions (u.casefold posting.title) criteria.exclude
    pub titled : (criteria.titles ≡ []) ⊎ Mentions (u.casefold posting.title) criteria.titles
    pub located : Located posting criteria
    pub remote_fits : RemoteFits posting criteria.remote

  remote_passes→RemoteFits :
      (posting : RawPosting) (preference : RemotePreference)
      → remote_passes u posting preference ≡ true
      → RemoteFits posting preference
  unfolding remote_passes
  remote_passes→RemoteFits posting RemotePreference.any h = tt
  remote_passes→RemoteFits posting RemotePreference.remote h = ground arith
  remote_passes→RemoteFits posting RemotePreference.onsite h = ground arith
  remote_passes→RemoteFits posting RemotePreference.hybrid h = ground arith

  RemoteFits→remote_passes :
      (posting : RawPosting) (preference : RemotePreference)
      → RemoteFits posting preference
      → remote_passes u posting preference ≡ true
  unfolding remote_passes
  RemoteFits→remote_passes posting RemotePreference.any h = refl
  RemoteFits→remote_passes posting RemotePreference.remote h = ground arith
  RemoteFits→remote_passes posting RemotePreference.onsite h = ground arith
  RemoteFits→remote_passes posting RemotePreference.hybrid h = ground arith

  to_NearAnyway :
      (posting : RawPosting) (preference : RemotePreference)
      → (posting.remote_flag && admits_remote preference) ≡ true
      → NearAnyway posting preference
  to_NearAnyway posting RemotePreference.any h = ground arith
  to_NearAnyway posting RemotePreference.remote h = ground arith
  to_NearAnyway posting RemotePreference.onsite h = ground arith
  to_NearAnyway posting RemotePreference.hybrid h = ground arith

  from_NearAnyway :
      (posting : RawPosting) (preference : RemotePreference)
      → NearAnyway posting preference
      → (posting.remote_flag && admits_remote preference) ≡ true
  from_NearAnyway posting RemotePreference.any h = ground arith
  from_NearAnyway posting RemotePreference.remote h = ground arith
  from_NearAnyway posting RemotePreference.onsite h = absurd h
  from_NearAnyway posting RemotePreference.hybrid h = absurd h

  location_passes→Located :
      (posting : RawPosting) (criteria : WatchCriteria)
      → location_passes u posting criteria ≡ true
      → Located posting criteria
  location_passes→Located posting criteria h = elim (Bool-cases (is_empty criteria.locations)) [
    | inl e ↦ inl (is_empty-nil criteria.locations e)
    | inr e ↦ elim (Bool-cases (posting.remote_flag && admits_remote criteria.remote)) [
      | inl near ↦ inr (inl (to_NearAnyway posting criteria.remote near))
      | inr far ↦ inr (
          inr (mentions→Mentions criteria.locations _ (unfold location_passes in rw (e, far) at h)))
    ]
  ]

  Located→location_passes :
      (posting : RawPosting) (criteria : WatchCriteria)
      → Located posting criteria
      → location_passes u posting criteria ≡ true
  unfolding location_passes
  Located→location_passes posting criteria (inl e) = rw e
  Located→location_passes posting criteria (inr (inl near)) =
      ground (arith, from_NearAnyway posting criteria.remote near)
  Located→location_passes posting criteria (inr (inr m)) = ground (arith, Mentions→mentions _ m)

  matches_criteria→Wants :
      (posting : RawPosting) (criteria : WatchCriteria)
      → matches_criteria u posting criteria ≡ true
      → Wants posting criteria
  unfolding matches_criteria
  matches_criteria→Wants posting criteria h = record {
    not_excluded = λ m. ground (arith, Mentions→mentions (u.casefold posting.title) m);
    titled = elim (Bool-cases (is_empty criteria.titles)) [
      | inl e ↦ inl (is_empty-nil criteria.titles e)
      | inr e ↦ inr (mentions→Mentions criteria.titles (u.casefold posting.title) (ground arith))
    ];
    located = location_passes→Located posting criteria (ground arith);
    remote_fits = remote_passes→RemoteFits posting criteria.remote (ground arith);
  }

  Wants→matches_criteria :
      (posting : RawPosting) (criteria : WatchCriteria)
      → Wants posting criteria
      → matches_criteria u posting criteria ≡ true
  unfolding matches_criteria
  Wants→matches_criteria posting criteria w = ground (
    arith,
    not_mentions criteria.exclude (u.casefold posting.title) w.not_excluded,
    titled_test criteria.titles (u.casefold posting.title) w.titled,
    Located→location_passes posting criteria w.located,
    RemoteFits→remote_passes posting criteria.remote w.remote_fits,
  )

  -- A role passes the filter exactly when the watch wants it: no excluded term in its title, one of
  -- the title terms if there are any, one of the places if there are any (or a remote role, where
  -- the preference admits it), and the remote preference met.
  pub matches_criteria-iff-Wants :
      (posting : RawPosting) (criteria : WatchCriteria)
      → (matches_criteria u posting criteria ≡ true) ↔ Wants posting criteria
  matches_criteria-iff-Wants posting criteria =
      (matches_criteria→Wants posting criteria, Wants→matches_criteria posting criteria)
