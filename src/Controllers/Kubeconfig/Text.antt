-- ===== src/Controllers/Kubeconfig/Text.antt =====
-- The text functions of Go's standard library that controllers/configs.go uses, on bytes:
-- `strings.Replace` and `base64.StdEncoding.EncodeToString`.
pub mod Filled
pub mod Lines
pub mod ReadBack
use Prim.Native.Char.{code}
use cluster_api_control_plan.Common.{
  ℕ, zero, suc, ◌+◌, ◌-◌, ◌*◌, ◌/◌, ◌%◌, String, Bool, true, false, ◌&&◌, List, [], ◌∷◌, ◌++◌,
  length, ltb, ◌==◌, if◌then◌else◌,
}

-- The bytes of an ASCII text.
abbrev pub codes : String → List ℕ
codes String.[] = []
codes (String.◌∷◌ c s) = code c ∷ codes s

-- The bytes of a character in UTF-8.
abbrev utf8_char : ℕ → List ℕ
utf8_char c =
    if ltb c 128
    then c ∷ []
    else if ltb c 2048
    then (192 + c / 64) ∷ (128 + c % 64) ∷ []
    else if ltb c 65536
    then (224 + c / 4096) ∷ (128 + c / 64 % 64) ∷ (128 + c % 64) ∷ []
    else (240 + c / 262144) ∷ (128 + c / 4096 % 64) ∷ (128 + c / 64 % 64) ∷ (128 + c % 64) ∷ []

-- The bytes of a text, as Go stores it.
unfoldable pub utf8 : String → List ℕ
utf8 String.[] = []
utf8 (String.◌∷◌ c s) = utf8_char (code c) ++ utf8 s

pub starts_with : List ℕ → List ℕ → Bool
starts_with [] s = true
starts_with (c ∷ old) [] = false
starts_with (c ∷ old) (d ∷ s) = c == d && starts_with old s

-- The loop of `replace_all`, with the number of bytes of a match that are still to be skipped.
pub replace_from : List ℕ → List ℕ → ℕ → List ℕ → List ℕ
replace_from old new skip [] = []
replace_from old new (suc k) (c ∷ s) = replace_from old new k s
replace_from old new zero (c ∷ s) = elim (starts_with old (c ∷ s)) [
  | true ↦ new ++ replace_from old new (length old - 1) s
  | false ↦ c ∷ replace_from old new zero s
]

-- `strings.Replace(s, old, new, -1)` for an `old` that is not empty.
unfoldable pub replace_all : List ℕ → List ℕ → List ℕ → List ℕ
unfolding replace_from starts_with
replace_all s old new = replace_from old new 0 s

-- The character of the standard base64 alphabet for six bits.
unfoldable pub base64_char : ℕ → ℕ
base64_char n =
    if ltb n 26
    then b'A' + n
    else if ltb n 52
    then b'a' + (n - 26)
    else if ltb n 62
    then b'0' + (n - 52)
    else if n == 62
    then b'+'
    else b'/'

-- `base64.StdEncoding.EncodeToString`, padded with `=`.
unfoldable pub encode_to_string : List ℕ → List ℕ
unfolding base64_char
encode_to_string [] = []
encode_to_string (a ∷ []) = base64_char (a / 4) ∷ base64_char (a % 4 * 16) ∷ b'=' ∷ b'=' ∷ []
encode_to_string (a ∷ b ∷ []) =
    base64_char (a / 4) ∷ base64_char (a % 4 * 16 + b / 16) ∷ base64_char (b % 16 * 4) ∷ b'=' ∷ []
encode_to_string (a ∷ b ∷ c ∷ rest) =
    base64_char (a / 4)
    ∷ base64_char (a % 4 * 16 + b / 16)
    ∷ base64_char (b % 16 * 4 + c / 64)
    ∷ base64_char (c % 64)
    ∷ encode_to_string rest

-- `templateConfig`.
abbrev pub template_config : List ℕ
template_config =
    codes
      "\napiVersion: v1\nclusters:\n- cluster:\n    certificate-authority-data: <CACERT>\n    server: https://<HOST>:6443\n  name: microk8s-cluster\ncontexts:\n- context:\n    cluster: microk8s-cluster\n    user: admin\n  name: microk8s\ncurrent-context: microk8s\nkind: Config\npreferences: {}\nusers:\n- name: admin\n  user:\n    client-certificate-data: <CERT>\n    client-key-data: <KEY>\n"

-- The four replacements at the end of `genarateKubeconfig`, on the host, the CA certificate and
-- the PEM texts of the client certificate and its key.
unfoldable pub fill_template : List ℕ → List ℕ → List ℕ → List ℕ → List ℕ
unfolding replace_all encode_to_string
fill_template host ca_cert cert_pem key_pem =
    let config = replace_all template_config (codes "<HOST>") host in
    let config = replace_all config (codes "<CACERT>") (encode_to_string ca_cert) in
    let config = replace_all config (codes "<CERT>") (encode_to_string cert_pem) in
    replace_all config (codes "<KEY>") (encode_to_string key_pem)
