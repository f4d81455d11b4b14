-- ===== src/Controllers/Kubeconfig/Text/Filled.antt =====
-- What `genarateKubeconfig` makes of the template: the text with the values in the places of the four
-- markers.
use cluster_api_control_plan.Common.{
  ℕ, ◌≡◌, refl, arith, ◌+◌, ◌*◌, ◌/◌, ◌%◌, Bool, true, false, not, ◌&&◌, List, [], ◌∷◌, ◌++◌, ◌==◌,
  if◌then◌else◌,
}
use cluster_api_control_plan.Controllers.Kubeconfig.Text.{
  codes, starts_with, replace_from, replace_all, base64_char, encode_to_string, template_config,
}

-- The places that the replacements fill.
pub data Marker : Type 0 where
  host ca_cert cert key : Marker

abbrev pub spelling : Marker → List ℕ
spelling host = codes "<HOST>"
spelling ca_cert = codes "<CACERT>"
spelling cert = codes "<CERT>"
spelling key = codes "<KEY>"

abbrev pub same : Marker → Marker → Bool
same host host = true
same ca_cert ca_cert = true
same cert cert = true
same key key = true
same _ _ = false

-- A text in pieces.
pub data Piece : Type 0 where
  plain : List ℕ → Piece
  marker : Marker → Piece

abbrev pub spell : Piece → List ℕ
spell (plain text) = text
spell (marker m) = spelling m

unfoldable pub assemble : List Piece → List ℕ
assemble [] = []
assemble (piece ∷ pieces) = spell piece ++ assemble pieces

-- No byte of the text is `c`.
abbrev pub without : ℕ → List ℕ → Bool
without c [] = true
without c (b ∷ text) = not (c == b) && without c text

-- No byte starts a marker.
abbrev pub without_mark : List ℕ → Bool
without_mark = without b'<'

abbrev pub is_clean : Piece → Bool
is_clean (plain text) = without_mark text
is_clean (marker m) = true

abbrev pub are_clean : List Piece → Bool
are_clean [] = true
are_clean (piece ∷ pieces) = is_clean piece && are_clean pieces

abbrev pub fill : Marker → List ℕ → Piece → Piece
fill m new (plain text) = plain text
fill m new (marker k) = if same m k then plain new else marker k

abbrev pub fill_all : Marker → List ℕ → List Piece → List Piece
fill_all m new [] = []
fill_all m new (piece ∷ pieces) = fill m new piece ∷ fill_all m new pieces

plain-replaced :
    (m : Marker) (new text rest : List ℕ)
    → without_mark text ≡ true
    → replace_from (spelling m) new 0 (text ++ rest) ≡ text ++ replace_from (spelling m) new 0 rest
unfolding replace_from starts_with
plain-replaced m new [] rest clean = refl
plain-replaced host new (c ∷ text) rest clean = ground (arith, plain-replaced host new text rest)
plain-replaced ca_cert new (c ∷ text) rest clean =
    ground (arith, plain-replaced ca_cert new text rest)
plain-replaced cert new (c ∷ text) rest clean = ground (arith, plain-replaced cert new text rest)
plain-replaced key new (c ∷ text) rest clean = ground (arith, plain-replaced key new text rest)

marker-replaced :
    (m k : Marker) (new rest : List ℕ)
    → replace_from (spelling m) new 0 (spelling k ++ rest)
      ≡ (if same m k then new else spelling k) ++ replace_from (spelling m) new 0 rest
unfolding replace_from starts_with
marker-replaced host host new rest = refl
marker-replaced host ca_cert new rest = refl
marker-replaced host cert new rest = refl
marker-replaced host key new rest = refl
marker-replaced ca_cert host new rest = refl
marker-replaced ca_cert ca_cert new rest = refl
marker-replaced ca_cert cert new rest = refl
marker-replaced ca_cert key new rest = refl
marker-replaced cert host new rest = refl
marker-replaced cert ca_cert new rest = refl
marker-replaced cert cert new rest = refl
marker-replaced cert key new rest = refl
marker-replaced key host new rest = refl
marker-replaced key ca_cert new rest = refl
marker-replaced key cert new rest = refl
marker-replaced key key new rest = refl

-- A replacement of a marker fills its places and leaves the rest.
pub replaced :
    (m : Marker) (new : List ℕ) (pieces : List Piece)
    → are_clean pieces ≡ true
    → replace_all (assemble pieces) (spelling m) new ≡ assemble (fill_all m new pieces)
unfolding assemble replace_from replace_all
replaced m new [] clean = refl
replaced m new (plain text ∷ pieces) clean =
    let text_clean : without_mark text ≡ true = ground arith in
    let pieces_clean : are_clean pieces ≡ true = ground arith in
    rw (plain-replaced m new text (assemble pieces) text_clean, replaced m new pieces pieces_clean)
replaced m new (marker k ∷ pieces) clean =
    rw (marker-replaced m k new (assemble pieces), replaced m new pieces clean)
      (fill-marker m k new)
  where
    fill-marker :
        (m k : Marker) (new : List ℕ)
        → (if same m k then new else spelling k) ++ assemble (fill_all m new pieces)
          ≡ spell (fill m new (marker k)) ++ assemble (fill_all m new pieces)
    fill-marker m k new = ground arith

-- The template in pieces.
abbrev pub template_pieces : List Piece
template_pieces =
    plain (codes "\napiVersion: v1\nclusters:\n- cluster:\n    certificate-authority-data: ")
    ∷ marker ca_cert
    ∷ plain (codes "\n    server: https://")
    ∷ marker host
    ∷ plain (
        codes
          ":6443\n  name: microk8s-cluster\ncontexts:\n- context:\n    cluster: microk8s-cluster\n    user: admin\n  name: microk8s\ncurrent-context: microk8s\nkind: Config\npreferences: {}\nusers:\n- name: admin\n  user:\n    client-certificate-data: ")
    ∷ marker cert
    ∷ plain (codes "\n    client-key-data: ")
    ∷ marker key
    ∷ plain (codes "\n")
    ∷ []

pub template-replaced :
    (new : List ℕ)
    → replace_all template_config (spelling host) new ≡ assemble (fill_all host new template_pieces)
unfolding assemble
template-replaced new = replaced host new template_pieces refl

-- A byte that is no character of the alphabet and no padding is not in an encoded text.
pub without-encode :
    (c : ℕ)
    → ((n : ℕ) → not (c == base64_char n) ≡ true)
    → not (c == b'=') ≡ true
    → (bytes : List ℕ) → without c (encode_to_string bytes) ≡ true
unfolding encode_to_string
without-encode x char pad [] = refl
without-encode x char pad (a ∷ []) = ground (arith, pad, char (a / 4), char (a % 4 * 16))
without-encode x char pad (a ∷ b ∷ []) =
    ground (arith, pad, char (a / 4), char (a % 4 * 16 + b / 16), char (b % 16 * 4))
without-encode x char pad (a ∷ b ∷ c ∷ rest) = ground (
  arith,
  char (a / 4),
  char (a % 4 * 16 + b / 16),
  char (b % 16 * 4 + c / 64),
  char (c % 64),
  without-encode x char pad rest,
)

without_mark-char : (n : ℕ) → not (b'<' == base64_char n) ≡ true
unfolding base64_char
without_mark-char n = ground arith

pub without_mark-encode : (bytes : List ℕ) → without_mark (encode_to_string bytes) ≡ true
without_mark-encode = without-encode b'<' without_mark-char refl
