-- ===== src/Requests/Tests.antt =====
-- The requests of utils/http.go at concrete inputs.
use go_cedar.Base.{
  ℕ, List, [], ◌∷◌, map, Bool, true, false, ◌≡◌, refl, ◌≢◌, inl, inr, same_text, if◌then◌else◌,
}
use go_cedar.Requests.Tags.{Source, header, query, find_all, match_start, match_source}
use go_cedar.Requests.{
  is_empty, is_nil, Request, Field, string_type, unmarshaler, initial, converted, Result, panic,
  Unmarshalling, refuses, unmarshal_http_request,
}
use go_cedar.Requests.Filling.{fill, AllTaken, TakesText, request-fill, unset_field-panic}
use go_cedar.Requests.Panics.{provided_types_never_panic}
use go_cedar.Requests.Printing.{print_tag, find_all-print_tag}

abbrev id_name : List ℕ
id_name = b'I' ∷ b'd' ∷ []

abbrev key_name : List ℕ
key_name = b'k' ∷ []

-- Only the query has a value, and for `k` alone.
abbrev sample_request : Request
sample_request = record {
  header_get = λ name. [];
  query_get = λ name. if same_text name key_name then b'7' ∷ [] else [];
}

abbrev two_sources : List (Source × List ℕ)
two_sources = (header, id_name) ∷ (query, key_name) ∷ []

abbrev text_field : Field
text_field = record {
  name = id_name;
  tag = print_tag two_sources;
  required = b'1' ∷ [];
  is_exported = true;
  is_pointer = false;
  is_null = false;
  type = string_type;
  content = initial;
}

abbrev null_field : Field
null_field = record text_field { is_pointer = true; is_null = true }

abbrev refuse_all : ℕ → Bool → List ℕ → Unmarshalling
refuse_all method null value = refuses 3

text_field-TakesText : TakesText true text_field
unfolding is_nil
text_field-TakesText = record {
  exported = refl;
  reached = inr refl;
  not_nil = refl;
  text = inl refl;
}

find_all-print_tag_example : find_all 0 (print_tag two_sources) ≡ two_sources
find_all-print_tag_example = find_all-print_tag two_sources (refl, refl, (refl, refl, tt))

taken_field : AllTaken true sample_request (text_field ∷ [])
unfolding find_all match_start match_source is_empty
taken_field = (text_field-TakesText, inr (b'7' ∷ [], refl), tt)

request-fill_example :
    unmarshal_http_request refuse_all true sample_request (text_field ∷ [])
    ≡ Result.ok (map (fill sample_request) (text_field ∷ []))
request-fill_example = request-fill refuse_all true sample_request (text_field ∷ []) taken_field

filled_text : (fill sample_request text_field).content ≡ converted (b'7' ∷ [])
unfolding find_all match_start match_source is_empty
filled_text = refl

unset_field-panic_example :
    unmarshal_http_request refuse_all true sample_request (text_field ∷ null_field ∷ []) ≡ panic
unfolding find_all match_start match_source is_empty
unset_field-panic_example =
    unset_field-panic refuse_all true sample_request (text_field ∷ []) [] null_field (b'7' ∷ [])
      taken_field refl (inl (refl, refl, inl refl))

provided_types_never_panic_example :
    unmarshal_http_request refuse_all true sample_request (
      text_field ∷ record text_field { type = unmarshaler 2 } ∷ record null_field { tag = [] } ∷ [])
    ≢ panic
unfolding is_nil find_all
provided_types_never_panic_example =
    provided_types_never_panic refuse_all true sample_request
      (text_field
        ∷ record text_field { type = unmarshaler 2 }
        ∷ record null_field { tag = [] }
        ∷ [])
      (λ method value e. cc) (inr (refl, refl, tt), (inr (refl, refl, tt), (inl refl, tt)))
