-- ===== src/Controllers/Kubeconfig/Text/ReadBack.antt =====
-- What a client reads from the kubeconfig that `genarateKubeconfig` writes.
use cluster_api_control_plan.Common.{
  ℕ, ◌≡◌, refl, ap, ◌∙◌, arith, ◌+◌, ◌-◌, ◌*◌, ◌/◌, ◌%◌, ◌<◌, Bool, true, false, not, ◌&&◌, List,
  [], ◌∷◌, ◌++◌, All, ltb, ◌==◌, if◌then◌else◌,
}
use cluster_api_control_plan.Controllers.Kubeconfig.Text.{
  codes, starts_with, base64_char, encode_to_string, fill_template,
}
use cluster_api_control_plan.Controllers.Kubeconfig.Text.Filled.{
  without, without_mark, without-encode,
}
use cluster_api_control_plan.Controllers.Kubeconfig.Text.Lines.{
  join_lines, kubeconfig_lines, fill_template_lines,
}

-- The six bits of a character of the standard base64 alphabet.
sextet : ℕ → ℕ
sextet c =
    if ltb c b'0'
    then (if c == b'+' then 62 else 63)
    else if ltb c b'A'
    then c - b'0' + 52
    else if ltb c b'a'
    then c - b'A'
    else c - b'a' + 26

sextet-char : (n : ℕ) → n < 64 → sextet (base64_char n) ≡ n
unfolding sextet base64_char
sextet-char n small = ground arith

char_ne_pad : (n : ℕ) → (base64_char n == b'=') ≡ false
unfolding base64_char
char_ne_pad n = ground arith

-- Decoding of padded base64.
pub decode : List ℕ → List ℕ
decode (w ∷ x ∷ y ∷ z ∷ rest) =
    let more = decode rest in
    let a = sextet w * 4 + sextet x / 16 in
    let b = sextet x % 16 * 16 + sextet y / 4 in
    let c = sextet y % 4 * 64 + sextet z in
    if y == b'=' then a ∷ [] else if z == b'=' then a ∷ b ∷ [] else a ∷ b ∷ c ∷ more
decode _ = []

abbrev pub AreBytes : List ℕ → Type 0
AreBytes bytes = All (λ b. b < 256) bytes

pub decode-encode : (bytes : List ℕ) → AreBytes bytes → decode (encode_to_string bytes) ≡ bytes
unfolding decode encode_to_string
decode-encode [] small = refl
decode-encode (a ∷ []) small = grind (arith, sextet-char (a / 4), sextet-char (a % 4 * 16))
decode-encode (a ∷ b ∷ []) small = grind (
  arith,
  char_ne_pad (b % 16 * 4),
  sextet-char (a / 4),
  sextet-char (a % 4 * 16 + b / 16),
  sextet-char (b % 16 * 4),
)
decode-encode (a ∷ b ∷ c ∷ rest) small = grind (
  arith,
  char_ne_pad (b % 16 * 4 + c / 64),
  char_ne_pad (c % 64),
  sextet-char (a / 4),
  sextet-char (a % 4 * 16 + b / 16),
  sextet-char (b % 16 * 4 + c / 64),
  sextet-char (c % 64),
  decode-encode rest,
)

-- The lines of a text, each without its end.
push : ℕ → List (List ℕ) → List (List ℕ)
push c [] = (c ∷ []) ∷ []
push c (line ∷ rest) = (c ∷ line) ∷ rest

pub lines_of : List ℕ → List (List ℕ)
lines_of [] = []
lines_of (c ∷ text) = let rest = lines_of text in if b'\n' == c then [] ∷ rest else push c rest

line-lines_of :
    (line text : List ℕ)
    → without b'\n' line ≡ true
    → lines_of (line ++ (b'\n' ∷ text)) ≡ line ∷ lines_of text
unfolding lines_of push
line-lines_of [] text clean = refl
line-lines_of (c ∷ line) text clean = ground (arith, line-lines_of line text)

abbrev all_without : ℕ → List (List ℕ) → Bool
all_without c [] = true
all_without c (line ∷ rest) = without c line && all_without c rest

lines_of-join_lines :
    (lines : List (List ℕ)) → all_without b'\n' lines ≡ true → lines_of (join_lines lines) ≡ lines
unfolding lines_of join_lines
lines_of-join_lines [] clean = refl
lines_of-join_lines (line ∷ rest) clean =
    ground (arith, line-lines_of line (join_lines rest), lines_of-join_lines rest)

-- What follows a prefix in the first line that starts with it.
strip : List ℕ → List ℕ → List ℕ
strip [] line = line
strip (c ∷ prefix) [] = []
strip (c ∷ prefix) (d ∷ line) = strip prefix line

pub value_of : List ℕ → List (List ℕ) → List ℕ
value_of prefix [] = []
value_of prefix (line ∷ rest) =
    let later = value_of prefix rest in if starts_with prefix line then strip prefix line else later

values :
    (address ca_cert cert_pem key_pem : List ℕ)
    → let ls = kubeconfig_lines address ca_cert cert_pem key_pem in
      (value_of (codes "    server: https://") ls ≡ address ++ codes ":6443")
      × (value_of (codes "    certificate-authority-data: ") ls ≡ encode_to_string ca_cert)
      × (value_of (codes "    client-certificate-data: ") ls ≡ encode_to_string cert_pem)
      × (value_of (codes "    client-key-data: ") ls ≡ encode_to_string key_pem)
unfolding value_of starts_with strip
values address ca_cert cert_pem key_pem = (refl, refl, refl, refl)

newline-char : (n : ℕ) → not (b'\n' == base64_char n) ≡ true
unfolding base64_char
newline-char n = ground arith

without-append :
    (c : ℕ) (xs ys : List ℕ)
    → without c xs ≡ true
    → without c ys ≡ true
    → without c (xs ++ ys) ≡ true
without-append c [] ys hx hy = hy
without-append c (x ∷ xs) ys hx hy = ground (arith, without-append c xs ys)

lines_clean :
    (address ca_cert cert_pem key_pem : List ℕ)
    → without b'\n' address ≡ true
    → all_without b'\n' (kubeconfig_lines address ca_cert cert_pem key_pem) ≡ true
lines_clean address ca_cert cert_pem key_pem clean =
    let encoded = without-encode b'\n' newline-char refl in
    ground (
      arith,
      encoded ca_cert,
      encoded cert_pem,
      encoded key_pem,
      without-append b'\n' address (codes ":6443") clean refl,
    )

-- The values that are read are the encoded ones.
pub fill_template-value_of :
    (address ca_cert cert_pem key_pem : List ℕ)
    → without_mark address ≡ true
    → without b'\n' address ≡ true
    → let ls = lines_of (fill_template address ca_cert cert_pem key_pem) in
      (value_of (codes "    server: https://") ls ≡ address ++ codes ":6443")
      × (value_of (codes "    certificate-authority-data: ") ls ≡ encode_to_string ca_cert)
      × (value_of (codes "    client-certificate-data: ") ls ≡ encode_to_string cert_pem)
      × (value_of (codes "    client-key-data: ") ls ≡ encode_to_string key_pem)
fill_template-value_of address ca_cert cert_pem key_pem unmarked clean =
    let ls = kubeconfig_lines address ca_cert cert_pem key_pem in
    rw
      (
        fill_template_lines address ca_cert cert_pem key_pem unmarked,
        lines_of-join_lines ls (lines_clean address ca_cert cert_pem key_pem clean),
      )
      (values address ca_cert cert_pem key_pem)

-- If no byte of the host is `<` or a line's end, and the certificates and the key are bytes, then the
-- filled template, read line by line, gives back the host with the port 6443, and the values of its
-- three data fields decode to the CA certificate, the client certificate and the key.
pub fill_template-decode :
    (address ca_cert cert_pem key_pem : List ℕ)
    → without_mark address ≡ true
    → without b'\n' address ≡ true
    → AreBytes ca_cert
    → AreBytes cert_pem
    → AreBytes key_pem
    → let ls = lines_of (fill_template address ca_cert cert_pem key_pem) in
      (value_of (codes "    server: https://") ls ≡ address ++ codes ":6443")
      × (decode (value_of (codes "    certificate-authority-data: ") ls) ≡ ca_cert)
      × (decode (value_of (codes "    client-certificate-data: ") ls) ≡ cert_pem)
      × (decode (value_of (codes "    client-key-data: ") ls) ≡ key_pem)
fill_template-decode address ca_cert cert_pem key_pem unmarked clean small_ca small_cert small_key =
    let (server, ca, cert, key) =
      fill_template-value_of address ca_cert cert_pem key_pem unmarked clean in
    (
      server,
      ap decode ca ∙ decode-encode ca_cert small_ca,
      ap decode cert ∙ decode-encode cert_pem small_cert,
      ap decode key ∙ decode-encode key_pem small_key,
    )
