-- ===== src/Json/Dict.antt =====
-- Reading a `dict` that was written: `d[key] = value` and `d.get(key)`.
use ai_career_os.Common.{
  String, ◌≡◌, refl, ap, subst, false, some, str_eq, if◌then◌else◌, eq_iff, eq_refl, Bool-cases,
  inl, inr, if_true, if_false,
}
use ai_career_os.Json.{Value, Fields, end, field, get, set}

module _ {F : Type 0} where
  pub get-set_same : (key : String) (v : Value F) (d : Fields F) → get key (set key v d) ≡ some v
  unfolding get set
  get-set_same key v end = if_true _ _ (eq_refl key)
  get-set_same key v (field k w rest) = elim (Bool-cases (str_eq key k)) [
    | inl e ↦ rw e (rw e refl)
    | inr e ↦ rw e (rw e (get-set_same key v rest))
  ]

  pub get-set_other :
      (other key : String) (v : Value F) (d : Fields F)
      → str_eq other key ≡ false
      → get other (set key v d) ≡ get other d
  unfolding get set
  get-set_other other key v end h = if_false _ _ h
  get-set_other other key v (field k w rest) h = elim (Bool-cases (str_eq key k)) [
    | inl e ↦
        let h' : str_eq other k ≡ false =
          subst (λ s. str_eq other s ≡ false) ((eq_iff key k).0 e) h in
        rw (e, h') refl
    | inr e ↦
        rw e (
          ap (λ later. if str_eq other k then some w else later) (get-set_other other key v rest h))
  ]
