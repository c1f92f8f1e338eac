-- ===== src/Tracker/Lookup.antt =====
-- A row that was changed is found under its key, and the others as before.
use ai_career_os.Common.{
  ℕ, ◌≡◌, refl, sym, ap, subst, ◌∙◌, ◌++◌, any, true, false, some, List, [], ◌∷◌, ◌==◌,
  if◌then◌else◌, arith, Bool-cases, inl, inr, if_true, if_false, or_false,
}
use ai_career_os.Tracker.Model.{find_row, put_row}

module _ {A : Type 0} (key : A → ℕ) where
  ==-sound : (a b : ℕ) → (a == b) ≡ true → a ≡ b
  ==-sound a b h = ground (arith, h)

  ==-refl : (a : ℕ) → (a == a) ≡ true
  ==-refl a = ground arith

  pub find_row-put_same :
      (new old : A) (rows : List A)
      → find_row key (key new) rows ≡ some old
      → find_row key (key new) (put_row key new rows) ≡ some new
  find_row-put_same new old [] h = absurd cc
  find_row-put_same new old (row ∷ rows) h = elim (Bool-cases (key row == key new)) [
    | inl same ↦ rw same (rw (==-refl (key new)) refl)
    | inr differs ↦
        rw differs (rw differs (find_row-put_same new old rows (sym (if_false _ _ differs) ∙ h)))
  ]

  pub find_row-put_other :
      (id : ℕ) (new : A) (rows : List A)
      → (key new == id) ≡ false
      → find_row key id (put_row key new rows) ≡ find_row key id rows
  find_row-put_other id new [] h = refl
  find_row-put_other id new (row ∷ rows) h = elim (Bool-cases (key row == key new)) [
    | inl same ↦
        let h' : (key row == id) ≡ false =
          ap (λ k. k == id) (==-sound (key row) (key new) same) ∙ h in
        rw (same, h, h') (find_row-put_other id new rows h)
    | inr differs ↦
        rw differs
          (ap (λ r. if key row == id then some row else r) (find_row-put_other id new rows h))
  ]

  pub find_row-key :
      (id : ℕ) (row : A) (rows : List A) → find_row key id rows ≡ some row → key row ≡ id
  find_row-key id row [] h = absurd cc
  find_row-key id row (first ∷ rows) h = elim (Bool-cases (key first == id)) [
    | inl same ↦
        subst (λ r. key r ≡ id) (some-injective (sym (if_true _ _ same) ∙ h))
          (==-sound (key first) id same)
    | inr differs ↦ find_row-key id row rows (sym (if_false _ _ differs) ∙ h)
  ]
    where
      some-injective : {a b : A} → some a ≡ some b → a ≡ b
      some-injective e = cc

  pub find_row-last :
      (new : A) (rows : List A)
      → any (λ row. key row == key new) rows ≡ false
      → find_row key (key new) (rows ++ (new ∷ [])) ≡ some new
  find_row-last new [] h = if_true _ _ (==-refl (key new))
  find_row-last new (row ∷ rows) h =
      let (differs, later) = or_false (key row == key new) _ h in
      if_false _ _ differs ∙ find_row-last new rows later
