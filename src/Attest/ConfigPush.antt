-- ===== src/Attest/ConfigPush.antt =====
-- src/vsock_attest/config_push.rs: the configuration that an attested guest receives. Key generation
-- and certificate requests belong to rcgen and fleetos-core, so they are parameters; the clock is one too.
-- Addresses are four bytes.
pub mod Svid
use fleetos_agent.Prelude.{
  ℕ, String, Bool, true, false, Option, none, some, List, [], ◌∷◌, Bytes, map, if◌then◌else◌,
}
use fleetos_agent.Errors.{AgentError, identity, Result, ok, err, ◌>>=◌}
use fleetos_agent.Core.{Core}
use fleetos_agent.Workloads.Messages.{PodSpec, EnvVar, VolumeMount}
use fleetos_agent.Identity.Degraded.{DelegatedKeyManager, Signer, has_valid_key, renew_svid_locally}

pub record DummyIpRouteConfig : Type 0 where
  pub dummy_ip : Bytes
  pub service : String
  pub role : String
  pub tenant : String

pub record VolumeMountConfig : Type 0 where
  pub name : String
  pub mount_path : String
  pub read_only : Bool

pub record WorkloadContext : Type 0 where
  pub pod_spec : PodSpec
  pub guest_ip : Bytes
  pub netmask : Bytes
  pub gateway : Bytes

-- The binary is `/usr/bin/` and the name that stands here.
pub record WorkloadConfig : Type 0 where
  pub svid_cert_chain_der : List Bytes
  pub svid_private_key_der : Bytes
  pub env_vars : List (String × String)
  pub volume_mounts : List VolumeMountConfig
  pub dummy_ip_routes : List DummyIpRouteConfig
  pub workload_binary : Option String
  pub workload_args : List String
  pub trust_domain : String
  pub tenant_id : String
  pub service_name : String
  pub role : String
  pub guest_ip : Bytes
  pub netmask : Bytes
  pub gateway : Bytes

abbrev pub mount_config : VolumeMount → VolumeMountConfig
mount_config vm = record { name = vm.name; mount_path = vm.mount_path; read_only = vm.read_only }

abbrev pub env_pair : EnvVar → String × String
env_pair e = (e.name, e.value)

abbrev pub no_address : Bytes
no_address = 0 ∷ 0 ∷ 0 ∷ 0 ∷ []

-- What key generation yields, its encoding, and the request for a certificate.
pub record Keygen (SpiffeId : Type 0) : Type 1 where
  pub KeyPair : Type 0
  pub serialize_der : KeyPair → Bytes
  pub build_csr : SpiffeId → KeyPair → Option Bytes

module _ (core : Core) (keygen : Keygen core.SpiffeId) where
  open core use {SpiffeId}

  pub record WorkloadConfigBuilder : Type 0 where
    pub trust_domain : String
    pub dummy_ip_routes : List DummyIpRouteConfig
    pub delegated_keys : DelegatedKeyManager core
    pub svid_ttl_secs : ℕ

  unfoldable pub set_dummy_ip_routes :
      List DummyIpRouteConfig → WorkloadConfigBuilder → WorkloadConfigBuilder
  set_dummy_ip_routes routes builder = record builder { dummy_ip_routes = routes }

  -- A certificate chain and its private key.
  abbrev pub no_svid_pair : List Bytes × Bytes
  no_svid_pair = ([], [])

  abbrev pub with_key : keygen.KeyPair → Result Bytes → List Bytes × Bytes
  with_key keypair (ok cert_der) = (cert_der ∷ [], keygen.serialize_der keypair)
  with_key keypair (err e) = no_svid_pair

  abbrev pub required {ℓ} : {A : Type ℓ} → AgentError → Option A → Result A
  required e none = err e
  required e (some a) = ok a

  module _ (sign : Signer core) (generated : Option keygen.KeyPair) (now : ℕ) where
    -- The two fields of the SVID for a workload; `generated` is what key generation returns.
    unfoldable pub svid_for : WorkloadConfigBuilder → SpiffeId → Result (List Bytes × Bytes)
    svid_for builder id =
        if has_valid_key core id now builder.delegated_keys
        then (required (identity "workload keygen failed") generated >>= λ keypair.
            required (identity "workload CSR build failed") (keygen.build_csr id keypair)
            >>= λ csr_der. ok (
                with_key keypair (
                  renew_svid_locally core sign id csr_der builder.svid_ttl_secs now
                    builder.delegated_keys)))
        else ok no_svid_pair

    unfoldable pub build : WorkloadConfigBuilder → WorkloadContext → Result WorkloadConfig
    unfolding svid_for
    build builder ctx =
        svid_for builder
          (core.new_sa builder.trust_domain ctx.pod_spec.tenant_id ctx.pod_spec.workload_id)
        >>= λ svid. ok (record {
          svid_cert_chain_der = svid.0;
          svid_private_key_der = svid.1;
          env_vars = map env_pair ctx.pod_spec.env;
          volume_mounts = map mount_config ctx.pod_spec.volume_mounts;
          dummy_ip_routes = builder.dummy_ip_routes;
          workload_binary = some ctx.pod_spec.workload_id;
          workload_args = [];
          trust_domain = builder.trust_domain;
          tenant_id = ctx.pod_spec.tenant_id;
          service_name = ctx.pod_spec.workload_id;
          role = ctx.pod_spec.role;
          guest_ip = ctx.guest_ip;
          netmask = ctx.netmask;
          gateway = ctx.gateway;
        })

  unfoldable pub build_fallback : WorkloadConfigBuilder → Result WorkloadConfig
  build_fallback builder = ok (record {
    svid_cert_chain_der = [];
    svid_private_key_der = [];
    env_vars = [];
    volume_mounts = [];
    dummy_ip_routes = builder.dummy_ip_routes;
    workload_binary = none;
    workload_args = [];
    trust_domain = builder.trust_domain;
    tenant_id = "";
    service_name = "";
    role = "";
    guest_ip = no_address;
    netmask = no_address;
    gateway = no_address;
  })
