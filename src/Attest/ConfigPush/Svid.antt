-- ===== src/Attest/ConfigPush/Svid.antt =====
-- The SVID in the configurations of src/vsock_attest/config_push.rs.
use fleetos_agent.Prelude.{
  ℕ, Option, some, List, [], ◌∷◌, Bytes, ◌≡◌, ◌⊎◌, inl, inr, arith, Bool-cases, Option-cases,
}
use fleetos_agent.Errors.{ok, Result-cases}
use fleetos_agent.Core.{Core}
use fleetos_agent.Identity.Degraded.{Signer, has_valid_key, renew_svid_locally}
use fleetos_agent.Identity.Degraded.Filed.{Filed}
use fleetos_agent.Identity.Degraded.Renewal.{Renewal, renew_exact}
use fleetos_agent.Attest.ConfigPush.{
  Keygen, WorkloadConfigBuilder, WorkloadConfig, WorkloadContext, svid_for, build,
}

module _ (core : Core) (keygen : Keygen core.SpiffeId) where
  open core use {SpiffeId}

  module _ (sign : Signer core) (generated : Option keygen.KeyPair) (now : ℕ) where
    -- A chain of one certificate for the public key that stands beside it, signed with a valid key of the workload.
    pub record Signed (builder : WorkloadConfigBuilder core keygen) (id : SpiffeId)
        (svid : List Bytes × Bytes) : Type 0 where
      pub keypair : keygen.KeyPair
      pub csr_der : Bytes
      pub cert : Bytes
      pub fresh : generated ≡ some keypair
      pub request : keygen.build_csr id keypair ≡ some csr_der
      pub renewal :
          Renewal core sign id csr_der builder.svid_ttl_secs now builder.delegated_keys cert
      pub chain_is : svid.0 ≡ cert ∷ []
      pub key_is : svid.1 ≡ keygen.serialize_der keypair

    abbrev pub Closed : List Bytes × Bytes → Type 0
    Closed svid = (svid.0 ≡ []) × (svid.1 ≡ [])

    svid_for-Closed :
        (builder : WorkloadConfigBuilder core keygen) (id : SpiffeId) (svid : List Bytes × Bytes)
        → Filed core builder.delegated_keys
        → svid_for core keygen sign generated now builder id ≡ ok svid
        → Closed svid ⊎ Signed builder id svid
    unfolding svid_for
    svid_for-Closed builder id svid filed e =
        elim (Bool-cases (has_valid_key core id now builder.delegated_keys)) [
          | inr missing ↦ inl (ground arith, ground arith)
          | inl held ↦ elim (Option-cases generated) [
            | inl failed ↦ absurd (ground arith)
            | inr (keypair, fresh) ↦ elim (Option-cases (keygen.build_csr id keypair)) [
              | inl failed ↦ absurd (ground arith)
              | inr (csr_der, request) ↦
                  elim (Result-cases (
                    renew_svid_locally core sign id csr_der builder.svid_ttl_secs now
                      builder.delegated_keys)) [
                        | inr (e', refused) ↦ inl (ground arith, ground arith)
                        | inl (cert, made) ↦ inr (record {
                          keypair = keypair;
                          csr_der = csr_der;
                          cert = cert;
                          fresh = fresh;
                          request = request;
                          renewal =
                              (renew_exact core sign id csr_der cert builder.svid_ttl_secs now
                                  builder.delegated_keys filed).0
                                made;
                          chain_is = ground arith;
                          key_is = ground arith;
                        })
                      ]
            ]
          ]
        ]

    -- Where keys are filed under their targets and a configuration is built, the configuration of a guest
    -- carries no certificate and no private key, or both: then the
    -- certificate was requested for the workload's own identity and the private key that stands
    -- beside it, and signed with an unexpired key that is scoped to that workload.
    pub svid_fails-Closed :
        (builder : WorkloadConfigBuilder core keygen) (ctx : WorkloadContext)
        (config : WorkloadConfig)
        → Filed core builder.delegated_keys
        → build core keygen sign generated now builder ctx ≡ ok config
        → let svid : List Bytes × Bytes =
            (config.svid_cert_chain_der, config.svid_private_key_der) in
          Closed svid
          ⊎ Signed builder
              (core.new_sa builder.trust_domain ctx.pod_spec.tenant_id ctx.pod_spec.workload_id)
              svid
    unfolding build
    svid_fails-Closed builder ctx config filed e =
        let id = core.new_sa builder.trust_domain ctx.pod_spec.tenant_id ctx.pod_spec.workload_id in
        elim (Result-cases (svid_for core keygen sign generated now builder id)) [
          | inr (e', failed) ↦ absurd (ground arith)
          | inl (svid, made) ↦
              let c : config.svid_cert_chain_der ≡ svid.0 = ground arith in
              let k : config.svid_private_key_der ≡ svid.1 = ground arith in
              rw (c, k) (svid_for-Closed builder id svid filed made)
        ]
