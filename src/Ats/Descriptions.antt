-- ===== src/Ats/Descriptions.antt =====
-- What the descriptions of roles raise: the HTML of app/services/radar/sources.
use ai_career_os.Common.{
  String, ◌≡◌, refl, Option, none, some, List, str_eq, Bool-cases, inl, inr, ◌⊎◌, [],
}
use ai_career_os.Common.Exec.{Exception, Result, ok, err}
use ai_career_os.Json.{
  Value, Fields, Items, nil, cons, null, boolean, number, text, array, object, get,
}
use ai_career_os.Common.Text.{strip, contains}
use ai_career_os.Ats.Html.{html_to_text, text_of_events, collapsed, get_text, handle_events}
use ai_career_os.Ats.{HtmlEvent, value_or, str_or_blank, AtsEnv, text_under}
use ai_career_os.Ats.Greenhouse.{text_of_unescaped}
use ai_career_os.Ats.Lever.{
  full_description, one_part, then_parts, part_of, section_parts, list_part, list_parts, lists_of,
  joined_parts,
}
use ai_career_os.Ats.Ashby.{ashby_description}

-- what `HTMLParser` or `html.unescape` raises on some text
abbrev pub FromHtml : {F : Type 0} → AtsEnv F → Exception → Type 0
FromHtml env e =
    ((html : String) × (env.parse_html html ≡ err e))
    ⊎ ((html : String) × (env.unescape html ≡ err e))

module _ {F : Type 0} (env : AtsEnv F) where
  -- an error is one of reading HTML
  abbrev pub Traced : {A : Type 0} → Result A → Type 0
  Traced (ok a) = Unit
  Traced (err e) = FromHtml env e

  html_to_text-Traced : (html : String) → Traced (html_to_text env html)
  unfolding html_to_text
  html_to_text-Traced html = parsed (env.parse_html html) refl
    where
      read :
          (escaped : String) (answer : Result String)
          → env.unescape escaped ≡ answer
          → Traced (collapsed env answer)
      read escaped (ok t) e = tt
      read escaped (err x) e = inr (escaped, e)

      parsed :
          (events : Result (List HtmlEvent))
          → env.parse_html html ≡ events
          → Traced (text_of_events env events)
      parsed (ok events) e =
          read _ (get_text env (handle_events events (record { skip_depth = 0; chunks = [] }))) refl
      parsed (err x) e = inl (html, e)

  pub unescaped-Traced :
      (escaped : String) (answer : Result String)
      → env.unescape escaped ≡ answer
      → Traced (text_of_unescaped env answer)
  unescaped-Traced escaped (ok html) e = html_to_text-Traced html
  unescaped-Traced escaped (err x) e = inr (escaped, e)

  one_part-Traced : (part : Result String) → Traced part → Traced (one_part env part)
  one_part-Traced (ok part) h = tt
  one_part-Traced (err e) h = h

  then_parts-Traced :
      (parts more : Result (List String))
      → Traced parts
      → Traced more
      → Traced (then_parts env parts more)
  then_parts-Traced (ok parts) (ok more) h k = tt
  then_parts-Traced (ok parts) (err e) h k = k
  then_parts-Traced (err e) more h k = h

  part_of-Traced : (body : Option (Value F)) → Traced (part_of env body)
  part_of-Traced (some (text body)) = elim (Bool-cases (str_eq (strip body) "")) [
    | inl blank ↦ rw blank tt
    | inr full ↦ elim (Bool-cases (contains "<" body)) [
      | inl html ↦
          rw (full, html) (one_part-Traced (html_to_text env body) (html_to_text-Traced body))
      | inr plain ↦ rw (full, plain) tt
    ]
  ]
  part_of-Traced (some null) = tt
  part_of-Traced (some (boolean b)) = tt
  part_of-Traced (some (number n)) = tt
  part_of-Traced (some (array vs)) = tt
  part_of-Traced (some (object fs)) = tt
  part_of-Traced none = tt

  section_parts-Traced :
      (heading : String) (section : Result String)
      → Traced section
      → Traced (section_parts env heading section)
  section_parts-Traced heading (ok section) h = tt
  section_parts-Traced heading (err e) h = h

  list_part-Traced : (entry : Value F) → Traced (list_part env entry)
  list_part-Traced (object entry) =
      elim (Bool-cases (str_eq (str_or_blank env (get "content" entry)) "")) [
        | inl blank ↦ rw blank tt
        | inr full ↦ rw full (
            section_parts-Traced (text_under env "text" entry)
              (html_to_text env (str_or_blank env (get "content" entry))) (html_to_text-Traced _))
      ]
  list_part-Traced null = tt
  list_part-Traced (boolean b) = tt
  list_part-Traced (number n) = tt
  list_part-Traced (text s) = tt
  list_part-Traced (array vs) = tt

  list_parts-Traced : (entries : Items F) → Traced (list_parts env entries)
  unfolding list_parts
  list_parts-Traced nil = tt
  list_parts-Traced (cons entry entries) =
      then_parts-Traced (list_part env entry) (list_parts env entries) (list_part-Traced entry)
        (list_parts-Traced entries)

  lists_of-Traced : (lists : Option (Value F)) → Traced (lists_of env lists)
  lists_of-Traced (some (array entries)) = list_parts-Traced entries
  lists_of-Traced (some null) = tt
  lists_of-Traced (some (boolean b)) = tt
  lists_of-Traced (some (number n)) = tt
  lists_of-Traced (some (text s)) = tt
  lists_of-Traced (some (object fs)) = tt
  lists_of-Traced none = tt

  joined_parts-Traced :
      (parts : Result (List String)) → Traced parts → Traced (joined_parts env parts)
  joined_parts-Traced (ok parts) h = tt
  joined_parts-Traced (err e) h = h

  pub full_description-Traced : (job : Fields F) → Traced (full_description env job)
  unfolding full_description
  full_description-Traced job = joined_parts-Traced _ (
      then_parts-Traced _ _
        (then_parts-Traced _ _
          (part_of-Traced (value_or env (get "descriptionPlain" job) (get "description" job)))
          (lists_of-Traced (get "lists" job)))
        (part_of-Traced (value_or env (get "additionalPlain" job) (get "additional" job))))

  pub ashby_description-Traced :
      (job : Fields F) (plain : Option (Value F)) → Traced (ashby_description env job plain)
  ashby_description-Traced job (some (text plain)) = elim (Bool-cases (str_eq (strip plain) "")) [
    | inl blank ↦ rw blank (html_to_text-Traced _)
    | inr full ↦ rw full tt
  ]
  ashby_description-Traced job (some null) = html_to_text-Traced _
  ashby_description-Traced job (some (boolean b)) = html_to_text-Traced _
  ashby_description-Traced job (some (number n)) = html_to_text-Traced _
  ashby_description-Traced job (some (array vs)) = html_to_text-Traced _
  ashby_description-Traced job (some (object fs)) = html_to_text-Traced _
  ashby_description-Traced job none = html_to_text-Traced _
