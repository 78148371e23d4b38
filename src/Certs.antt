-- ===== src/Certs.antt =====
-- utils/certs.go: the keys that are told apart, the identifiers of devices, and the certificate that is
-- signed with its own key. The cryptography is a parameter.
pub mod DeviceIds
mod Tests
use go_cedar.Base.{ℕ, zero, suc, ◌+◌, ◌*◌, ◌/◌, ◌%◌, List, [], ◌∷◌, ◌++◌, Option, none, some}
use go_cedar.Bytes.{hex_encode}

-- A point of an elliptic curve whose coordinates have `size` bytes; the secrets of keys and the numbers
-- of RSA are coded by numbers.
pub record Point : Type 0 where
  pub size : ℕ
  pub x : ℕ
  pub y : ℕ

pub data PublicKey : Type 0 where
  rsa_public : ℕ → PublicKey
  ecdsa_public : Point → PublicKey
  no_key : PublicKey

pub data PrivateKey : Type 0 where
  rsa_private : ℕ → ℕ → PrivateKey
  ecdsa_private : ℕ → Point → PrivateKey
  other_private : PrivateKey

unfoldable pub public_key : PrivateKey → PublicKey
public_key (rsa_private secret n) = rsa_public n
public_key (ecdsa_private secret point) = ecdsa_public point
public_key other_private = no_key

-- A number in so many bytes, the highest first.
unfoldable pub big_endian : ℕ → ℕ → List ℕ
big_endian zero n = []
big_endian (suc size) n = big_endian size (n / 256) ++ n % 256 ∷ []

-- `elliptic.MarshalCompressed`
unfoldable pub marshal_compressed : Point → List ℕ
marshal_compressed p = (2 + p.y % 2) ∷ big_endian p.size p.x

unfoldable pub device_id_from_x509_pubkey : PublicKey → List ℕ
device_id_from_x509_pubkey (ecdsa_public p) = hex_encode (marshal_compressed p)
device_id_from_x509_pubkey (rsa_public n) = []
device_id_from_x509_pubkey no_key = []

pub data PemType : Type 0 where
  rsa_private_key ec_private_key : PemType

-- What `pemBlockForKey` does: it returns nil or a block, or ends the program.
pub data PemResult : Type 0 where
  nil exits : PemResult
  block : PemType → List ℕ → PemResult

abbrev pub ec_block : Option (List ℕ) → PemResult
ec_block none = exits
ec_block (some bytes) = block ec_private_key bytes

-- `x509.MarshalPKCS1PrivateKey` and `x509.MarshalECPrivateKey` are parameters.
unfoldable pub pem_block_for_key :
    (ℕ → ℕ → List ℕ) → (ℕ → Point → Option (List ℕ)) → PrivateKey → PemResult
pem_block_for_key marshal_rsa marshal_ec (rsa_private secret n) =
    block rsa_private_key (marshal_rsa secret n)
pem_block_for_key marshal_rsa marshal_ec (ecdsa_private secret point) =
    ec_block (marshal_ec secret point)
pem_block_for_key marshal_rsa marshal_ec other_private = nil

-- The fields of the template that do not stay the same, in nanoseconds; the others are constants.
pub record Template : Type 0 where
  pub not_before : ℕ
  pub not_after : ℕ

pub record Certificate : Type 0 where
  pub chain : List (List ℕ)
  pub private_key : PrivateKey

-- 180 days
abbrev pub validity : ℕ
validity = 24 * 180 * 3600 * 1000000000

abbrev pub certificate_of : PrivateKey → Option (List ℕ) → Option Certificate
certificate_of priv none = none
certificate_of priv (some der_bytes) = some (record { chain = der_bytes ∷ []; private_key = priv })

-- `ecdsa.GenerateKey` gives a key or an error, `x509.CreateCertificate` takes a template, that of the
-- parent, a public key and the signing key; the clock is read twice. `none` is an error.
unfoldable pub make_self_signed_x509_certificate :
    Option PrivateKey
    → (Template → Template → PublicKey → PrivateKey → Option (List ℕ))
    → ℕ
    → ℕ
    → Option Certificate
make_self_signed_x509_certificate none create now later = none
make_self_signed_x509_certificate (some priv) create now later =
    let template : Template = record { not_before = now; not_after = later + validity } in
    certificate_of priv (create template template (public_key priv) priv)
