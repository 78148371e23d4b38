-- ===== src/Requests/Panics.antt =====
-- The types of fields with which `UnmarshalHTTPRequest` of utils/http.go cannot panic.
use go_cedar.Base.{
  ℕ, List, [], ◌∷◌, Bool, true, false, ◌≡◌, refl, ◌≢◌, ◌⊎◌, inl, inr, ◌∙◌, ap, arith, sym,
  Option-cases,
}
use go_cedar.Requests.Filling.{incoming_for, assign_first, fill_from-first}
use go_cedar.Requests.Tags.{find_all}
use go_cedar.Requests.{
  Request, Field, FieldType, unmarshaler, string_type, bytes_type, runes_type, integer_type,
  other_type, Reply, Result, panic, Unmarshalling, is_nil, assign, fill_from, end_field, set,
  after_unmarshal, unmarshal_by_type, unmarshal_http_request_field, unmarshal_at_address,
  unmarshal_http_request, with_field,
}

-- The types that the code provides for.
abbrev pub IsProvided : FieldType → Type 0
IsProvided (unmarshaler method) = Unit
IsProvided string_type = Unit
IsProvided bytes_type = Unit
IsProvided runes_type = Unit
IsProvided integer_type = ⊥
IsProvided other_type = ⊥

-- Each field is exported, of such a type, and with a pointer where it is of a pointer type; or its tag
-- names no header and no parameter of the query.
abbrev pub AllProvided : List Field → Type 0
AllProvided [] = Unit
AllProvided (f ∷ fields) =
    ((find_all 0 f.tag ≡ []) ⊎ ((f.is_exported ≡ true) × (is_nil f ≡ false) × IsProvided f.type))
    × AllProvided fields

module _ (unmarshal_text : ℕ → Bool → List ℕ → Unmarshalling) (can_addr : Bool) (r : Request) where
  after_unmarshal-ne-panics :
      (u : Unmarshalling) (m : ℕ) (value : List ℕ) (f : Field)
      → u ≢ Unmarshalling.panics
      → after_unmarshal m value f u ≢ Reply.panics
  unfolding after_unmarshal
  after_unmarshal-ne-panics u m value f t e = ground arith

  by_type-ne-panics :
      (type : FieldType) (value : List ℕ) (f : Field)
      → ((method : ℕ) (value : List ℕ) → unmarshal_text method false value ≢ Unmarshalling.panics)
      → is_nil f ≡ false
      → IsProvided type
      → unmarshal_by_type unmarshal_text can_addr r type value f ≢ Reply.panics
  unfolding unmarshal_by_type set
  by_type-ne-panics (unmarshaler m) value f total n p =
      after_unmarshal-ne-panics (unmarshal_text m (is_nil f) value) m value f
        (λ h. total m value (ap (λ b. unmarshal_text m b value) (sym n) ∙ h))
  by_type-ne-panics type value f total n p = λ e. ground (arith, n, e, p)

  assign-ne-panics :
      (value : List ℕ) (f : Field)
      → ((method : ℕ) (value : List ℕ) → unmarshal_text method false value ≢ Unmarshalling.panics)
      → f.is_exported ≡ true
      → is_nil f ≡ false
      → IsProvided f.type
      → assign unmarshal_text can_addr r value f ≢ Reply.panics
  unfolding assign unmarshal_at_address unmarshal_http_request_field
  assign-ne-panics value f total x n p e =
      by_type-ne-panics f.type value f total n p ground (arith, x, e)

  fill_from-ne-panics :
      (f : Field)
      → ((value : List ℕ) → assign unmarshal_text can_addr r value f ≢ Reply.panics)
      → fill_from unmarshal_text can_addr r (find_all 0 f.tag) f ≢ Reply.panics
  unfolding assign_first
  fill_from-ne-panics f t e =
      let g = fill_from-first unmarshal_text can_addr r (find_all 0 f.tag) f in
      elim (Option-cases (incoming_for r f)) [
        | inl n ↦ ground (arith, g, n, e)
        | inr (value, s) ↦ t value ground (arith, g, s, e)
      ]

  untagged-ne-panics :
      (f : Field)
      → find_all 0 f.tag ≡ []
      → fill_from unmarshal_text can_addr r (find_all 0 f.tag) f ≢ Reply.panics
  unfolding fill_from
  untagged-ne-panics f n e =
      let g : fill_from unmarshal_text can_addr r (find_all 0 f.tag) f ≡ Reply.unfilled f =
        rw n refl in
      cc (g, e)

  field-ne-panics :
      (f : Field)
      → ((method : ℕ) (value : List ℕ) → unmarshal_text method false value ≢ Unmarshalling.panics)
      → (find_all 0 f.tag ≡ []) ⊎ ((f.is_exported ≡ true) × (is_nil f ≡ false) × IsProvided f.type)
      → fill_from unmarshal_text can_addr r (find_all 0 f.tag) f ≢ Reply.panics
  field-ne-panics f total (inl n) = untagged-ne-panics f n
  field-ne-panics f total (inr (x, n, p)) =
      fill_from-ne-panics f (λ value. assign-ne-panics value f total x n p)

  end_field-panic :
      (reply : Reply) (others : List Field) (rest : Result)
      → reply ≢ Reply.panics
      → rest ≢ panic
      → end_field reply others rest ≢ panic
  unfolding end_field with_field
  end_field-panic reply others rest p q e = ground arith

  -- Whatever the request, and whether the struct has an address or not: when every field whose tag
  -- names a header or a parameter of the query is exported, is of a type with `UnmarshalText` or of one
  -- that a text converts to, and holds a pointer if it is of a pointer type, and no `UnmarshalText`
  -- panics at a receiver that is not null, then the call does not panic.
  pub provided_types_never_panic :
      (fields : List Field)
      → ((method : ℕ) (value : List ℕ) → unmarshal_text method false value ≢ Unmarshalling.panics)
      → AllProvided fields
      → unmarshal_http_request unmarshal_text can_addr r fields ≢ panic
  unfolding unmarshal_http_request
  provided_types_never_panic [] total a = λ e. cc
  provided_types_never_panic (f ∷ fields) total (x, a) =
      end_field-panic (fill_from unmarshal_text can_addr r (find_all 0 f.tag) f) fields
        (unmarshal_http_request unmarshal_text can_addr r fields) (field-ne-panics f total x)
        (provided_types_never_panic fields total a)
