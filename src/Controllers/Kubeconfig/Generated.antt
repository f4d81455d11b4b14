-- ===== src/Controllers/Kubeconfig/Generated.antt =====
-- What `genarateKubeconfig` needs for a kubeconfig, and what it puts into it.
use cluster_api_control_plan.Common.{
  ℕ, ◌≡◌, arith, String, ◌<>◌, none, some, Option, List, [], ◌∷◌, eq_iff, true, ap, ◌∙◌, ◌++◌,
}
use cluster_api_control_plan.Kube.{Res, ok, err, ObjectKey, Secret}
use cluster_api_control_plan.Calls.{Call, PemBlock}
use cluster_api_control_plan.Platform.{Platform}
use cluster_api_control_plan.Run.{State, returned}
use cluster_api_control_plan.Controllers.Kubeconfig.{
  entry, block_of_type, certificate_template, genarate_kubeconfig,
}
use cluster_api_control_plan.Controllers.Kubeconfig.Text.{codes, utf8, fill_template}
use cluster_api_control_plan.Controllers.Kubeconfig.Text.Filled.{without, without_mark}
use cluster_api_control_plan.Controllers.Kubeconfig.Text.ReadBack.{
  AreBytes, decode, decode-encode, lines_of, value_of, fill_template-value_of,
}

abbrev ok_or : {A : Type 0} → A → Res A → A
ok_or other (ok a) = a
ok_or other (err e) = other

abbrev some_or : {A : Type 0} → A → Option A → A
some_or other (some a) = a
some_or other none = other

module _ (p : Platform) (key : ObjectKey) (host : String) (s : State) (ca : Secret) where
  abbrev secret_key : ObjectKey
  secret_key = record { namespace = key.namespace; name = key.name <> "-ca" }

  abbrev no_block : PemBlock
  no_block = record { type_ = ""; bytes = [] }

  abbrev ca_block : PemBlock
  ca_block = some_or no_block (p.pem_decode (entry "crt" ca.entries))

  abbrev key_block : PemBlock
  key_block = some_or no_block (p.pem_decode (entry "key" ca.entries))

  abbrev t1 : List Call
  t1 = Call.get_secret secret_key ∷ s.trace

  abbrev t3 : List Call
  t3 = Call.now ∷ Call.now ∷ t1

  abbrev private_key : String
  private_key = ok_or "" (p.answer t3 (Call.generate_key 2048))

  abbrev request : Call
  request =
      Call.create_certificate
        (certificate_template (p.answer t1 Call.now)
          (p.add_years (p.answer (Call.now ∷ t1) Call.now) 10))
        ca_block.bytes private_key key_block.bytes

  abbrev cert_pem : List ℕ
  cert_pem = ok_or [] (
      p.pem_encode (record {
        type_ = "CERTIFICATE";
        bytes = ok_or [] (p.answer (Call.generate_key 2048 ∷ t3) request);
      }))

  abbrev key_pem : List ℕ
  key_pem = ok_or [] (
      p.pem_encode
        (record { type_ = "RSA PRIVATE KEY"; bytes = p.marshal_pkcs1_private_key private_key }))

  generated :
      (config : List ℕ)
      → p.answer s.trace (Call.get_secret secret_key) ≡ ok ca
      → (genarate_kubeconfig p key host s).0 ≡ returned (ok config)
      → (config ≡ fill_template (utf8 host) (entry "crt" ca.entries) cert_pem key_pem)
        × (p.pem_decode (entry "crt" ca.entries) ≡ some ca_block)
        × (ca_block.type_ ≡ "CERTIFICATE")
        × (p.parse_certificate ca_block.bytes ≡ none)
        × (p.pem_decode (entry "key" ca.entries) ≡ some key_block)
        × (key_block.type_ ≡ "RSA PRIVATE KEY")
        × (p.parse_pkcs1_private_key key_block.bytes ≡ none)
  unfolding genarate_kubeconfig block_of_type
  generated config found made =
      ground (arith, eq_iff ca_block.type_ "CERTIFICATE", eq_iff key_block.type_ "RSA PRIVATE KEY")

  -- If the host has no `<` and no line's end, the CA secret is read with bytes as its certificate, and
  -- `genarateKubeconfig` returns a kubeconfig, then its server is the host with the port 6443, its
  -- certificate authority data decode to the CA certificate of the secret, and this certificate and
  -- the key of the secret are PEM blocks of the right types that can be parsed.
  pub genarate_kubeconfig-decode :
      (config : List ℕ)
      → p.answer s.trace (Call.get_secret secret_key) ≡ ok ca
      → (genarate_kubeconfig p key host s).0 ≡ returned (ok config)
      → without_mark (utf8 host) ≡ true
      → without b'\n' (utf8 host) ≡ true
      → AreBytes (entry "crt" ca.entries)
      → let ls = lines_of config in
        (value_of (codes "    server: https://") ls ≡ utf8 host ++ codes ":6443")
        × (decode (value_of (codes "    certificate-authority-data: ") ls) ≡ entry "crt" ca.entries)
        × ((b : PemBlock) × (p.pem_decode (entry "crt" ca.entries) ≡ some b)
            × (b.type_ ≡ "CERTIFICATE")
            × (p.parse_certificate b.bytes ≡ none))
        × ((b : PemBlock) × (p.pem_decode (entry "key" ca.entries) ≡ some b)
            × (b.type_ ≡ "RSA PRIVATE KEY")
            × (p.parse_pkcs1_private_key b.bytes ≡ none))
  genarate_kubeconfig-decode config found made unmarked clean small =
      let crt = entry "crt" ca.entries in
      let (e, ca_is, ca_type, ca_parsed, key_is, key_type, key_parsed) =
        generated config found made in
      let (server, authority, cert, private) =
        fill_template-value_of (utf8 host) crt cert_pem key_pem unmarked clean in
      (
        ap (λ c. value_of (codes "    server: https://") (lines_of c)) e ∙ server,
        ap (λ c. decode (value_of (codes "    certificate-authority-data: ") (lines_of c))) e
            ∙ ap decode authority
            ∙ decode-encode crt small,
        (ca_block, ca_is, ca_type, ca_parsed),
        (key_block, key_is, key_type, key_parsed),
      )
