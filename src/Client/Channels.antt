-- ===== src/Client/Channels.antt =====
-- src/client/channels.rs: the TLS channels to the control plane. Text stands as its bytes. The endpoint,
-- its TLS settings and base64 belong to dependencies, so they are parameters.
use fleetos_agent.Prelude.{
  ℕ, zero, suc, String, Bool, true, false, ◌||◌, ◌&&◌, Option, none, some, List, [], ◌∷◌, ◌++◌,
  Bytes, take, drop, length, ◌==◌, if◌then◌else◌,
}
use fleetos_agent.Errors.{AgentError, config, grpc_transport, Result, ok, err, ◌>>=◌}

pub record ClientTlsConfig : Type 0 where
  pub ca_certificate : Bytes
  pub identity : Option (Bytes × Bytes)
  pub domain_name : String

pub record Tonic : Type 1 where
  pub Endpoint : Type 0
  pub Channel : Type 0
  pub from_shared : Bytes → Option Endpoint
  pub tls_config : Endpoint → ClientTlsConfig → Option Endpoint
  pub encode_base64 : Bytes → Bytes

abbrev pub starts_with : Bytes → Bytes → Bool
starts_with [] text = true
starts_with (b ∷ prefix) [] = false
starts_with (b ∷ prefix) (c ∷ text) = b == c && starts_with prefix text

-- "http://" and "https://".
abbrev pub http : Bytes
http = 104 ∷ 116 ∷ 116 ∷ 112 ∷ 58 ∷ 47 ∷ 47 ∷ []

abbrev pub https : Bytes
https = 104 ∷ 116 ∷ 116 ∷ 112 ∷ 115 ∷ 58 ∷ 47 ∷ 47 ∷ []

unfoldable pub ensure_scheme : Bytes → Bytes
ensure_scheme address =
    if starts_with http address || starts_with https address then address else https ++ address

-- "-----BEGIN ", "-----END " and "-----" with the end of the line.
abbrev begin_mark : Bytes
begin_mark = 45 ∷ 45 ∷ 45 ∷ 45 ∷ 45 ∷ 66 ∷ 69 ∷ 71 ∷ 73 ∷ 78 ∷ 32 ∷ []

abbrev end_mark : Bytes
end_mark = 45 ∷ 45 ∷ 45 ∷ 45 ∷ 45 ∷ 69 ∷ 78 ∷ 68 ∷ 32 ∷ []

abbrev line_end : Bytes
line_end = 45 ∷ 45 ∷ 45 ∷ 45 ∷ 45 ∷ 10 ∷ []

-- "CERTIFICATE" and "PRIVATE KEY".
abbrev certificate : Bytes
certificate = 67 ∷ 69 ∷ 82 ∷ 84 ∷ 73 ∷ 70 ∷ 73 ∷ 67 ∷ 65 ∷ 84 ∷ 69 ∷ []

abbrev private_key : Bytes
private_key = 80 ∷ 82 ∷ 73 ∷ 86 ∷ 65 ∷ 84 ∷ 69 ∷ 32 ∷ 75 ∷ 69 ∷ 89 ∷ []

-- Lines of 64 characters. The text has no more lines than characters.
unfoldable pub lines : ℕ → Bytes → Bytes
lines zero text = []
lines (suc fuel) [] = []
lines (suc fuel) (c ∷ text) = take 64 (c ∷ text) ++ 10 ∷ lines fuel (drop 64 (c ∷ text))

abbrev error_for {ℓ} : {A : Type ℓ} → AgentError → Option A → Result A
error_for e none = err e
error_for e (some a) = ok a

module _ (tonic : Tonic) where
  unfoldable pub der_to_pem : Bytes → Bytes → Bytes
  der_to_pem der label =
      let b64 = tonic.encode_base64 der in
      begin_mark ++ label ++ line_end ++ lines (length b64) b64 ++ end_mark ++ label ++ line_end

  unfoldable pub ders_to_pem : List Bytes → Bytes → Bytes
  unfolding der_to_pem
  ders_to_pem [] label = []
  ders_to_pem (der ∷ ders) label =
      let b64 = tonic.encode_base64 der in
      begin_mark
      ++ label
      ++ line_end
      ++ lines (length b64) b64
      ++ end_mark
      ++ label
      ++ line_end
      ++ ders_to_pem ders label

  -- The steps that the two functions share; `connect` is what connecting to an endpoint returns.
  abbrev connected :
      (tonic.Endpoint → Option tonic.Channel) → Bytes → ClientTlsConfig → Result tonic.Channel
  connected connect address settings =
      error_for (config "invalid endpoint") (tonic.from_shared (ensure_scheme address))
      >>= λ endpoint.
          error_for (grpc_transport "tls_config") (tonic.tls_config endpoint settings)
          >>= λ secured. error_for (grpc_transport "connect") (connect secured)

  unfoldable pub build_server_trust_channel :
      (tonic.Endpoint → Option tonic.Channel) → Bytes → Bytes → Result tonic.Channel
  build_server_trust_channel connect address trust_bundle_pem = connected connect address (record {
    ca_certificate = trust_bundle_pem;
    identity = none;
    domain_name = "fleetos-control";
  })

  unfoldable pub build_mtls_channel :
      (tonic.Endpoint → Option tonic.Channel)
      → Bytes
      → Bytes
      → List Bytes
      → Bytes
      → Result tonic.Channel
  build_mtls_channel connect address trust_bundle_pem cert_chain_der private_key_der =
      connected connect address (record {
        ca_certificate = trust_bundle_pem;
        identity =
            some (ders_to_pem cert_chain_der certificate, der_to_pem private_key_der private_key);
        domain_name = "fleetos-control";
      })
