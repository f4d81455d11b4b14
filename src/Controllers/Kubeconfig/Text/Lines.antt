-- ===== src/Controllers/Kubeconfig/Text/Lines.antt =====
-- The kubeconfig that `genarateKubeconfig` writes, line by line.
use mathlib.Core.List.{append_assoc}
use cluster_api_control_plan.Common.{ℕ, ◌≡◌, ap, ◌∙◌, arith, true, List, [], ◌∷◌, ◌++◌}
use cluster_api_control_plan.Controllers.Kubeconfig.Text.{
  codes, replace_all, encode_to_string, fill_template,
}
use cluster_api_control_plan.Controllers.Kubeconfig.Text.Filled.{
  Marker, host, cert, key, without_mark, assemble, fill_all, template_pieces, template-replaced,
  replaced, without_mark-encode,
}

-- A text of lines, each with its end.
unfoldable pub join_lines : List (List ℕ) → List ℕ
join_lines [] = []
join_lines (line ∷ rest) = line ++ (b'\n' ∷ join_lines rest)

-- The lines of a kubeconfig for a host, with a CA certificate, a client certificate and its key.
abbrev pub kubeconfig_lines : List ℕ → List ℕ → List ℕ → List ℕ → List (List ℕ)
kubeconfig_lines address ca_cert cert_pem key_pem =
    []
    ∷ codes "apiVersion: v1"
    ∷ codes "clusters:"
    ∷ codes "- cluster:"
    ∷ (codes "    certificate-authority-data: " ++ encode_to_string ca_cert)
    ∷ (codes "    server: https://" ++ (address ++ codes ":6443"))
    ∷ codes "  name: microk8s-cluster"
    ∷ codes "contexts:"
    ∷ codes "- context:"
    ∷ codes "    cluster: microk8s-cluster"
    ∷ codes "    user: admin"
    ∷ codes "  name: microk8s"
    ∷ codes "current-context: microk8s"
    ∷ codes "kind: Config"
    ∷ codes "preferences: {}"
    ∷ codes "users:"
    ∷ codes "- name: admin"
    ∷ codes "  user:"
    ∷ (codes "    client-certificate-data: " ++ encode_to_string cert_pem)
    ∷ (codes "    client-key-data: " ++ encode_to_string key_pem)
    ∷ []

joined :
    (address ca_cert cert_pem key_pem : List ℕ)
    → assemble (
        fill_all key (encode_to_string key_pem) (
          fill_all cert (encode_to_string cert_pem) (
            fill_all Marker.ca_cert
              (encode_to_string ca_cert)
              (fill_all host address template_pieces))))
      ≡ join_lines (kubeconfig_lines address ca_cert cert_pem key_pem)
unfolding assemble join_lines
joined address ca_cert cert_pem key_pem = simp append_assoc

-- If no byte of the host is `<`, then the filled template is a text of lines: the fixed ones, and four
-- that have the host and the encoded CA certificate, client certificate and key, each in its place.
pub fill_template_lines :
    (address ca_cert cert_pem key_pem : List ℕ)
    → without_mark address ≡ true
    → fill_template address ca_cert cert_pem key_pem
      ≡ join_lines (kubeconfig_lines address ca_cert cert_pem key_pem)
unfolding fill_template
fill_template_lines address ca_cert cert_pem key_pem clean =
    let a = encode_to_string ca_cert in
    let c = encode_to_string cert_pem in
    let k = encode_to_string key_pem in
    let ps = fill_all host address template_pieces in
    let qs = fill_all Marker.ca_cert a ps in
    let rs = fill_all cert c qs in
    let filled_host = template-replaced address in
    let filled_ca = replaced Marker.ca_cert a ps (ground (arith, clean)) in
    let filled_cert = replaced cert c qs (ground (arith, clean, without_mark-encode ca_cert)) in
    let filled_key =
      replaced key k rs
        (ground (arith, clean, without_mark-encode ca_cert, without_mark-encode cert_pem)) in
    ap
      (λ t.
        replace_all (replace_all (replace_all t (codes "<CACERT>") a) (codes "<CERT>") c)
          (codes "<KEY>") k)
      filled_host
    ∙ ap (λ t. replace_all (replace_all t (codes "<CERT>") c) (codes "<KEY>") k) filled_ca
    ∙ ap (λ t. replace_all t (codes "<KEY>") k) filled_cert
    ∙ filled_key
    ∙ joined address ca_cert cert_pem key_pem
