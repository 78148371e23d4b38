-- ===== src/Uris/Tests.antt =====
-- A URI of utils/state_uri.go and a file name of utils/http.go.
use go_cedar.Base.{ℕ, ◌≡◌, refl, List, [], ◌∷◌, ◌++◌, true, split}
use go_cedar.Uris.{local, is_local_state_uri, image_png, guess_content_type_from_filename}

-- "p.local/a.b"
abbrev uri : List ℕ
uri = b'p' ∷ b'.' ∷ (local ++ b'/' ∷ b'a' ∷ b'.' ∷ b'b' ∷ [])

uri_local : is_local_state_uri uri ≡ true
unfolding is_local_state_uri split
uri_local = refl

-- "a.PNG"
abbrev picture : List ℕ
picture = b'a' ∷ b'.' ∷ b'P' ∷ b'N' ∷ b'G' ∷ []

picture_type : guess_content_type_from_filename picture ≡ image_png
unfolding guess_content_type_from_filename split
picture_type = refl
