-- ===== src/Tests/Kubeconfig.antt =====
-- A kubeconfig for a host, with two short certificates and a key.
use cluster_api_control_plan.Common.{
  ℕ, zero, suc, Option, none, some, ◌≡◌, refl, arith, List, [], ◌∷◌,
}
use cluster_api_control_plan.Kube.{Error, ok, ObjectKey, Secret}
use cluster_api_control_plan.Calls.{PemBlock}
use cluster_api_control_plan.Platform.{Platform}
use cluster_api_control_plan.Run.{returned}
use cluster_api_control_plan.Controllers.Kubeconfig.{entry, block_of_type, genarate_kubeconfig}
use cluster_api_control_plan.Controllers.Kubeconfig.Generated.{genarate_kubeconfig-decode}
use cluster_api_control_plan.Tests.World.{four, world, start}
use cluster_api_control_plan.Controllers.Kubeconfig.Text.{utf8, codes, fill_template}
use cluster_api_control_plan.Controllers.Kubeconfig.Text.Lines.{
  join_lines, kubeconfig_lines, fill_template_lines,
}
use cluster_api_control_plan.Controllers.Kubeconfig.Text.ReadBack.{
  decode, lines_of, value_of, fill_template-decode,
}

abbrev address : List ℕ
address = codes "10.0.0.1"

abbrev ca : List ℕ
ca = 77 ∷ 97 ∷ 110 ∷ 255 ∷ []

abbrev cert : List ℕ
cert = 0 ∷ 60 ∷ []

abbrev key : List ℕ
key = 10 ∷ 20 ∷ 30 ∷ []

fill_template_lines_example :
    fill_template address ca cert key ≡ join_lines (kubeconfig_lines address ca cert key)
fill_template_lines_example = fill_template_lines address ca cert key refl

fill_template-decode_example :
    let ls = lines_of (fill_template address ca cert key) in
    (value_of (codes "    server: https://") ls ≡ codes "10.0.0.1:6443")
    × (decode (value_of (codes "    certificate-authority-data: ") ls) ≡ ca)
    × (decode (value_of (codes "    client-certificate-data: ") ls) ≡ cert)
    × (decode (value_of (codes "    client-key-data: ") ls) ≡ key)
fill_template-decode_example =
    fill_template-decode address ca cert key refl refl (omega arith) (omega arith) (omega arith)

-- A management cluster whose CA secret has a certificate and a key that can be decoded.
abbrev certificates : Secret
certificates = record {
  name = "c-ca";
  namespace = "ns";
  labels = [];
  entries = ("crt", 0 ∷ []) ∷ ("key", 1 ∷ []) ∷ [];
}

abbrev decoded : List ℕ → Option PemBlock
decoded [] = none
decoded (zero ∷ bytes) = some (record { type_ = "CERTIFICATE"; bytes = bytes })
decoded (suc n ∷ bytes) = some (record { type_ = "RSA PRIVATE KEY"; bytes = bytes })

abbrev issuing : Platform
issuing = record (world (record four { secret = ok certificates })) { pem_decode = decoded }

abbrev cluster_key : ObjectKey
cluster_key = record { namespace = "ns"; name = "c" }

made :
    (genarate_kubeconfig issuing cluster_key "10.0.0.1" (start four)).0
    ≡ returned (ok (fill_template address (0 ∷ []) [] []))
unfolding genarate_kubeconfig block_of_type entry utf8
made = refl

genarate_kubeconfig-decode_example :
    let ls = lines_of (fill_template address (0 ∷ []) [] []) in
    (value_of (codes "    server: https://") ls ≡ codes "10.0.0.1:6443")
    × (decode (value_of (codes "    certificate-authority-data: ") ls) ≡ 0 ∷ [])
    × ((b : PemBlock) × (decoded (0 ∷ []) ≡ some b)
        × (b.type_ ≡ "CERTIFICATE")
        × (◌≡◌ {A = Option Error} none none))
    × ((b : PemBlock) × (decoded (1 ∷ []) ≡ some b)
        × (b.type_ ≡ "RSA PRIVATE KEY")
        × (◌≡◌ {A = Option Error} none none))
unfolding entry utf8
genarate_kubeconfig-decode_example =
    genarate_kubeconfig-decode issuing cluster_key "10.0.0.1" (start four) certificates
      (fill_template address (0 ∷ []) [] []) refl made refl refl (omega arith)
