-- ===== src/Requests.antt =====
-- `UnmarshalHTTPRequest` of utils/http.go: the fields of a struct are filled from the headers and the
-- query of a request. Requests/Tags has the tags. Text is the list of its bytes.
pub mod Tags
pub mod Filling
pub mod Panics
pub mod Printing
pub mod Client
pub mod Reaping
mod Tests
use go_cedar.Base.{ℕ, List, [], ◌∷◌, Bool, true, false, not, Option, none, some, if◌then◌else◌}
use go_cedar.Requests.Tags.{Source, header, query, find_all}

-- What `r.Header.Get` and `r.URL.Query().Get` give: nothing for a name that is not there.
pub record Request : Type 0 where
  pub header_get : List ℕ → List ℕ
  pub query_get : List ℕ → List ℕ

-- The types of fields that the code tells apart. The pointers to some types have a method
-- `UnmarshalText`; strings, bytes and runes are made of a string by a conversion; integers convert to
-- strings, but a string does not convert to them; all other types do neither.
pub data FieldType : Type 0 where
  unmarshaler : ℕ → FieldType
  string_type bytes_type runes_type integer_type other_type : FieldType

-- What a field holds, or what it points to. `initial` is what it held before the call.
pub data Content : Type 0 where
  initial : Content
  converted : List ℕ → Content
  unmarshalled : ℕ → List ℕ → Content

-- `null`: a field of a pointer type holds no pointer. `required` is `field.Tag.Get("required")`.
pub record Field : Type 0 where
  pub name : List ℕ
  pub tag : List ℕ
  pub required : List ℕ
  pub is_exported : Bool
  pub is_pointer : Bool
  pub is_null : Bool
  pub type : FieldType
  pub content : Content

pub data Error : Type 0 where
  missing_request_field cannot_unmarshal : List ℕ → Error
  unmarshal_error : ℕ → Error

pub data Reply : Type 0 where
  filled unfilled : Field → Reply
  fails : Field → Error → Reply
  panics : Reply

pub data Result : Type 0 where
  ok : List Field → Result
  err : List Field → Error → Result
  panic : Result

unfoldable pub is_empty : List ℕ → Bool
is_empty [] = true
is_empty (c ∷ text) = false

unfoldable pub is_nil : Field → Bool
is_nil f = if f.is_pointer then f.is_null else false

unfoldable pub with_field : Field → Result → Result
with_field f (ok fields) = ok (f ∷ fields)
with_field f (err fields e) = err (f ∷ fields) e
with_field f panic = panic

-- What an `UnmarshalText` does: it sets its receiver, or gives an error, or panics.
pub data Unmarshalling : Type 0 where
  sets panics : Unmarshalling
  refuses : ℕ → Unmarshalling

-- `fieldVal.Elem().Set(...)`
unfoldable pub set : List ℕ → Field → Reply
set value f = if is_nil f then panics else filled (record f { content = converted value })

unfoldable pub after_unmarshal : ℕ → List ℕ → Field → Unmarshalling → Reply
after_unmarshal method value f sets =
    if is_nil f then filled f else filled (record f { content = unmarshalled method value })
after_unmarshal method value f (refuses e) = fails f (unmarshal_error e)
after_unmarshal method value f Unmarshalling.panics = panics

unfoldable pub end_field : Reply → List Field → Result → Result
end_field (filled f) others rest = with_field f rest
end_field (unfilled f) others rest =
    if is_empty f.required
    then with_field f rest
    else err (f ∷ others) (missing_request_field f.name)
end_field (fails f e) others rest = err (f ∷ others) e
end_field panics others rest = panic

-- `UnmarshalText` of each type that has it, at a null receiver or another: a parameter.
module _ (unmarshal_text : ℕ → Bool → List ℕ → Unmarshalling) (can_addr : Bool) (r : Request) where
  unfoldable pub value_of : Source → List ℕ → List ℕ
  value_of header name = r.header_get name
  value_of query name = r.query_get name

  unfoldable pub unmarshal_by_type : FieldType → List ℕ → Field → Reply
  unmarshal_by_type (unmarshaler method) value f =
      after_unmarshal method value f (unmarshal_text method (is_nil f) value)
  unmarshal_by_type string_type value f = set value f
  unmarshal_by_type bytes_type value f = set value f
  unmarshal_by_type runes_type value f = set value f
  unmarshal_by_type integer_type value f = panics
  unmarshal_by_type other_type value f = panics

  -- `Interface` panics at a field that is not exported.
  unfoldable pub unmarshal_http_request_field : List ℕ → Field → Reply
  unmarshal_http_request_field value f =
      if f.is_exported then unmarshal_by_type f.type value f else panics

  -- `fieldVal.Addr()` panics at a field without an address.
  unfoldable pub unmarshal_at_address : List ℕ → Field → Reply
  unmarshal_at_address value f = if can_addr then unmarshal_http_request_field value f else panics

  unfoldable pub assign : List ℕ → Field → Reply
  assign value f =
      if f.is_pointer
      then unmarshal_http_request_field value f
      else if can_addr
      then unmarshal_at_address value f
      else fails f (cannot_unmarshal f.name)

  -- The loop over the matches of a field's tag.
  unfoldable pub fill_from : List (Source × List ℕ) → Field → Reply
  fill_from [] f = unfilled f
  fill_from ((source, name) ∷ matches) f =
      let rest = fill_from matches f in
      if is_empty (value_of source name) then rest else assign (value_of source name) f

  -- The loop over the fields. An error leaves the fields before it filled.
  unfoldable pub unmarshal_http_request : List Field → Result
  unmarshal_http_request [] = ok []
  unmarshal_http_request (f ∷ fields) =
      end_field (fill_from (find_all 0 f.tag) f) fields (unmarshal_http_request fields)
