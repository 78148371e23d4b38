-- ===== src/Uris.antt =====
-- `IsLocalStateURI` of utils/state_uri.go, and the content types of utils/http.go. Text is the list of
-- its bytes.
pub mod Hosts
pub mod Types
mod Tests
use go_cedar.Base.{
  ℕ, ◌+◌, ◌-◌, List, [], ◌∷◌, ◌++◌, map, Bool, true, false, ◌&&◌, Option, none, some, length, ltb,
  leb, ◌==◌, if◌then◌else◌, same_text, split, first_part, last_part,
}
use go_cedar.Bytes.{zeros}

abbrev pub local : List ℕ
local = b'l' ∷ b'o' ∷ b'c' ∷ b'a' ∷ b'l' ∷ []

unfoldable pub is_local_state_uri : List ℕ → Bool
is_local_state_uri state_uri =
    let state_uri_parts = split b'/' state_uri in
    let hostname_parts = split b'.' (first_part state_uri_parts) in
    if length state_uri_parts == 0
    then false
    else if length hostname_parts == 0
    then false
    else same_text (last_part hostname_parts) local

pub data ContentType : Type 0 where
  text_plain text_html application_js application_json : ContentType
  image_png image_jpeg application_octet_stream : ContentType

-- `strings.ToLower`: no other code point than these has a letter of the extensions below as its lower
-- case.
abbrev pub to_lower : ℕ → ℕ
to_lower c = if leb b'A' c && leb c b'Z' then c + 32 else c

abbrev pub choose : List ℕ → List (List ℕ × ContentType) → ContentType
choose ext [] = application_octet_stream
choose ext ((name, type) ∷ types) =
    let rest = choose ext types in if same_text ext name then type else rest

-- The cases of the `switch`.
abbrev pub content_types : List (List ℕ × ContentType)
content_types =
    (b't' ∷ b'x' ∷ b't' ∷ [], text_plain)
    ∷ (b'h' ∷ b't' ∷ b'm' ∷ b'l' ∷ [], text_html)
    ∷ (b'j' ∷ b's' ∷ [], application_js)
    ∷ (b'j' ∷ b's' ∷ b'o' ∷ b'n' ∷ [], application_json)
    ∷ (b'p' ∷ b'n' ∷ b'g' ∷ [], image_png)
    ∷ (b'j' ∷ b'p' ∷ b'g' ∷ [], image_jpeg)
    ∷ (b'j' ∷ b'p' ∷ b'e' ∷ b'g' ∷ [], image_jpeg)
    ∷ []

unfoldable pub guess_content_type_from_filename : List ℕ → ContentType
guess_content_type_from_filename filename =
    let parts = split b'.' filename in
    if ltb 1 (length parts)
    then choose (map to_lower (last_part parts)) content_types
    else application_octet_stream

abbrev pub is_octet_stream : ContentType → Bool
is_octet_stream application_octet_stream = true
is_octet_stream other = false

-- `http.DetectContentType` is a parameter, of which only the result for the ambiguous type matters;
-- `data` is what one `Read` of at most 512 bytes gives. The whole buffer is looked at, with the zeros
-- behind what was read.
unfoldable pub sniff_content_type :
    (List ℕ → ContentType) → List ℕ → Option (List ℕ) → Option ContentType
sniff_content_type detect filename none = none
sniff_content_type detect filename (some data_read) =
    let content_type = detect (data_read ++ zeros (512 - length data_read)) in
    if is_octet_stream content_type
    then some (guess_content_type_from_filename filename)
    else some content_type
