-- ===== src/Requests/Filling.antt =====
-- What `UnmarshalHTTPRequest` of utils/http.go makes of a struct, against the first value that the
-- request has for each field.
use go_cedar.Base.{
  ℕ, List, [], ◌∷◌, ◌++◌, map, Bool, true, false, Option, none, some, ◌≡◌, refl, ◌⊎◌, inl, inr, ◌∙◌,
  ap, arith, Option-cases, if◌then◌else◌,
}
use go_cedar.Requests.Tags.{Source, header, query, find_all}
use go_cedar.Requests.{
  Request, Field, FieldType, string_type, bytes_type, runes_type, integer_type, converted, Reply,
  filled, unfilled, Result, ok, err, panic, Error, missing_request_field, Unmarshalling, is_empty,
  is_nil, value_of, assign, fill_from, end_field, set, unmarshal_by_type,
  unmarshal_http_request_field, unmarshal_at_address, unmarshal_http_request, with_field,
}

-- The first value of the request, that is not empty, among those which a tag names.
abbrev pub incoming : Request → List (Source × List ℕ) → Option (List ℕ)
incoming r [] = none
incoming r ((header, name) ∷ matches) =
    let rest = incoming r matches in
    if is_empty (r.header_get name) then rest else some (r.header_get name)
incoming r ((query, name) ∷ matches) =
    let rest = incoming r matches in
    if is_empty (r.query_get name) then rest else some (r.query_get name)

abbrev pub incoming_for : Request → Field → Option (List ℕ)
incoming_for r f = incoming r (find_all 0 f.tag)

-- A field that takes a text, as it then is.
abbrev pub fill_by : Option (List ℕ) → Field → Field
fill_by none f = f
fill_by (some value) f = record f { content = converted value }

abbrev pub fill : Request → Field → Field
fill r f = fill_by (incoming_for r f) f

abbrev pub IsText : FieldType → Type 0
IsText type = (type ≡ string_type) ⊎ (type ≡ bytes_type) ⊎ (type ≡ runes_type)

-- A field that can be set, of a type that a text converts to.
pub record TakesText (can_addr : Bool) (f : Field) : Type 0 where
  pub exported : f.is_exported ≡ true
  pub reached : (f.is_pointer ≡ true) ⊎ (can_addr ≡ true)
  pub not_nil : is_nil f ≡ false
  pub text : IsText f.type

-- A null pointer to a type that a text converts to, or a field of an integer type that can be reached.
abbrev pub IsUnsettable : Bool → Field → Type 0
IsUnsettable can_addr f =
    ((f.is_pointer ≡ true) × (f.is_null ≡ true) × IsText f.type)
    ⊎ (((f.is_pointer ≡ true) ⊎ (can_addr ≡ true)) × (f.type ≡ integer_type))

abbrev pub IsPresent : Request → Field → Type 0
IsPresent r f = (is_empty f.required ≡ true) ⊎ ((value : List ℕ) × (incoming_for r f ≡ some value))

abbrev pub AllTaken : Bool → Request → List Field → Type 0
AllTaken can_addr r [] = Unit
AllTaken can_addr r (f ∷ fields) = TakesText can_addr f × IsPresent r f × AllTaken can_addr r fields

module _ (unmarshal_text : ℕ → Bool → List ℕ → Unmarshalling) (can_addr : Bool) (r : Request) where
  unfoldable pub assign_first : Option (List ℕ) → Field → Reply
  assign_first none f = unfilled f
  assign_first (some value) f = assign unmarshal_text can_addr r value f

  pub fill_from-first :
      (matches : List (Source × List ℕ)) (f : Field)
      → fill_from unmarshal_text can_addr r matches f ≡ assign_first (incoming r matches) f
  unfolding fill_from value_of assign_first
  fill_from-first [] f = refl
  fill_from-first ((header, name) ∷ matches) f = ground (arith, fill_from-first matches f)
  fill_from-first ((query, name) ∷ matches) f = ground (arith, fill_from-first matches f)

  assign-TakesText :
      (value : List ℕ) (f : Field)
      → TakesText can_addr f
      → assign unmarshal_text can_addr r value f ≡ filled (record f { content = converted value })
  unfolding assign unmarshal_at_address unmarshal_http_request_field unmarshal_by_type set
  assign-TakesText value f t = ground arith

  take_field :
      (f : Field) (fields : List Field)
      → TakesText can_addr f
      → IsPresent r f
      → unmarshal_http_request unmarshal_text can_addr r (f ∷ fields)
        ≡ with_field (fill r f) (unmarshal_http_request unmarshal_text can_addr r fields)
  unfolding unmarshal_http_request end_field assign_first
  take_field f fields t p =
      let e = fill_from-first (find_all 0 f.tag) f in
      elim (Option-cases (incoming_for r f)) [
        | inl n ↦ ground (arith, e, n, p)
        | inr (value, s) ↦ ground (arith, e, s, assign-TakesText value f t)
      ]

  abbrev with_fields : List Field → Result → Result
  with_fields [] result = result
  with_fields (f ∷ fields) result = with_field f (with_fields fields result)

  take_fields :
      (before fields : List Field)
      → AllTaken can_addr r before
      → unmarshal_http_request unmarshal_text can_addr r (before ++ fields)
        ≡ with_fields
            (map (fill r) before)
            (unmarshal_http_request unmarshal_text can_addr r fields)
  take_fields [] fields a = refl
  take_fields (f ∷ before) fields (t, p, a) =
      take_field f (before ++ fields) t p ∙ ap (with_field (fill r f)) (take_fields before fields a)

  with_fields-ok : (fields : List Field) → with_fields fields (ok []) ≡ ok fields
  unfolding with_field
  with_fields-ok [] = refl
  with_fields-ok (f ∷ fields) = ap (with_field f) (with_fields-ok fields)

  with_fields-err :
      (fields others : List Field) (e : Error)
      → with_fields fields (err others e) ≡ err (fields ++ others) e
  unfolding with_field
  with_fields-err [] others e = refl
  with_fields-err (f ∷ fields) others e = ap (with_field f) (with_fields-err fields others e)

  with_fields-panic : (fields : List Field) → with_fields fields panic ≡ panic
  unfolding with_field
  with_fields-panic [] = refl
  with_fields-panic (f ∷ fields) = ap (with_field f) (with_fields-panic fields)

  -- When every field can be set and its type is one that a text converts to, and the request has a
  -- value for every field with a `required` tag: the call gives no error, and each field holds
  -- the first value that is not empty among those its tag names, in the order of the tag, or
  -- what it held before when there is none.
  pub request-fill :
      (fields : List Field)
      → AllTaken can_addr r fields
      → unmarshal_http_request unmarshal_text can_addr r fields ≡ ok (map (fill r) fields)
  unfolding unmarshal_http_request
  request-fill [] a = refl
  request-fill (f ∷ fields) (t, p, a) =
      take_field f fields t p
      ∙ ap (with_field (fill r f)) (request-fill fields a)
      ∙ unfold with_field in refl

  -- Behind such fields, for which the request has what is required, a required field without a value
  -- ends the call with the error that names it; the fields before it are filled already, this field
  -- and those behind it are as they were.
  pub missing-err :
      (before after : List Field) (f : Field)
      → AllTaken can_addr r before
      → is_empty f.required ≡ false
      → incoming_for r f ≡ none
      → unmarshal_http_request unmarshal_text can_addr r (before ++ f ∷ after)
        ≡ err (map (fill r) before ++ f ∷ after) (missing_request_field f.name)
  unfolding unmarshal_http_request end_field assign_first
  missing-err before after f a q n =
      take_fields before (f ∷ after) a
      ∙ ap (with_fields (map (fill r) before)) ground
          (arith, fill_from-first (find_all 0 f.tag) f, n, q)
      ∙ with_fields-err (map (fill r) before) (f ∷ after) (missing_request_field f.name)

  assign-IsUnsettable :
      (value : List ℕ) (f : Field)
      → IsUnsettable can_addr f
      → assign unmarshal_text can_addr r value f ≡ Reply.panics
  unfolding assign unmarshal_at_address unmarshal_http_request_field unmarshal_by_type set is_nil
  assign-IsUnsettable value f u = ground arith

  -- When the fields before it can be set, are of types that a text converts to, and have a value in the
  -- request if they are required: the call panics at a field for which the request has a value,
  -- when that field is a null pointer to a type that a text converts to, or is of an integer type and
  -- is a pointer or has an address.
  pub unset_field-panic :
      (before after : List Field) (f : Field) (value : List ℕ)
      → AllTaken can_addr r before
      → incoming_for r f ≡ some value
      → IsUnsettable can_addr f
      → unmarshal_http_request unmarshal_text can_addr r (before ++ f ∷ after) ≡ panic
  unfolding unmarshal_http_request end_field assign_first
  unset_field-panic before after f value a i u =
      take_fields before (f ∷ after) a
      ∙ ap (with_fields (map (fill r) before)) ground
          (arith, fill_from-first (find_all 0 f.tag) f, i, assign-IsUnsettable value f u)
      ∙ with_fields-panic (map (fill r) before)
