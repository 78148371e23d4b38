-- ===== src/Uris/Hosts.antt =====
-- Which URIs `IsLocalStateURI` of utils/state_uri.go takes to be local.
use go_cedar.Base.{
  ℕ, ◌≡◌, refl, ◌↔◌, ◌⊎◌, inl, inr, List, ◌∷◌, ◌++◌, Bool, true, false, arith, ap, ◌∙◌, sym,
  same_text, same_text_sound, split, split_whole, split-append, last_part-split, first_cut,
  last_cut, first_part, last_part, has, length-split,
}
use go_cedar.Uris.{local, is_local_state_uri}

-- The host is "local" or ends in ".local".
abbrev pub EndsLocal : List ℕ → Type 0
EndsLocal host = (host ≡ local) ⊎ ((domain : List ℕ) × (host ≡ domain ++ b'.' ∷ local))

-- The host ends at the first '/' or at the end.
abbrev pub HasHost : List ℕ → List ℕ → Type 0
HasHost uri host =
    (has b'/' host ≡ false) × ((uri ≡ host) ⊎ ((path : List ℕ) × (uri ≡ host ++ b'/' ∷ path)))

is_local_host : (host : List ℕ) → Bool
is_local_host host = same_text (last_part (split b'.' host)) local

first_part-split : (uri host : List ℕ) → HasHost uri host → first_part (split b'/' uri) ≡ host
first_part-split uri host (n, inl e) =
    ap (λ s. first_part (split b'/' s)) e ∙ ap first_part (split_whole b'/' host n)
first_part-split uri host (n, inr (path, e)) =
    ap (λ s. first_part (split b'/' s)) e ∙ ap first_part (split-append b'/' host path n)

has_host : (uri : List ℕ) → (host : List ℕ) × HasHost uri host
has_host uri = elim (first_cut b'/' uri) [
  | inl n ↦ (uri, (n, inl refl))
  | inr (host, path, n, e) ↦ (host, (n, inr (path, e)))
]

host-EndsLocal : (host : List ℕ) → is_local_host host ≡ true → EndsLocal host
unfolding is_local_host
host-EndsLocal host h = elim (last_cut b'.' host) [
  | inl n ↦ inl (
      same_text_sound host local
        (ap (λ ps. same_text (last_part ps) local) (sym (split_whole b'.' host n)) ∙ h))
  | inr (front, part, n, e) ↦
      let l : last_part (split b'.' host) ≡ part =
        ap (λ s. last_part (split b'.' s)) e ∙ last_part-split b'.' front part n in
      let f : part ≡ local = same_text_sound part local (ap (λ s. same_text s local) (sym l) ∙ h) in
      inr (front, e ∙ ap (λ s. front ++ b'.' ∷ s) f)
]

EndsLocal-host : (host : List ℕ) → EndsLocal host → is_local_host host ≡ true
unfolding is_local_host
EndsLocal-host host (inl e) =
    ap (λ s. same_text (last_part (split b'.' s)) local) e
    ∙ ap (λ ps. same_text (last_part ps) local) (split_whole b'.' local refl)
EndsLocal-host host (inr (domain, e)) =
    ap (λ s. same_text (last_part (split b'.' s)) local) e
    ∙ ap (λ s. same_text s local) (last_part-split b'.' domain local refl)

is_local_eq : (uri host : List ℕ) → HasHost uri host → is_local_state_uri uri ≡ is_local_host host
unfolding is_local_state_uri is_local_host
is_local_eq uri host h =
    let name = first_part (split b'/' uri) in
    let e : is_local_state_uri uri ≡ same_text (last_part (split b'.' name)) local =
      ground (arith, length-split b'/' uri, length-split b'.' name) in
    e ∙ ap (λ s. same_text (last_part (split b'.' s)) local) (first_part-split uri host h)

-- Every URI has a host, which goes up to its first '/' or to its end, and the URI is taken to be local
-- exactly when that host is "local" or ends in ".local".
pub local_host_iff :
    (uri : List ℕ)
    → (host : List ℕ) × HasHost uri host × ((is_local_state_uri uri ≡ true) ↔ EndsLocal host)
local_host_iff uri =
    let (host, h) = has_host uri in
    let e = is_local_eq uri host h in
    (host, h, ((λ l. host-EndsLocal host (sym e ∙ l)), λ l. e ∙ EndsLocal-host host l))
