-- ===== src/Config.antt =====
-- src/config.rs: the agent's configuration. Reading files and TOML belong to dependencies: what a file holds
-- and what TOML yields, with the defaults filled in, are parameters. The refresh fraction is a
-- floating-point number, of which the agent makes two comparisons. Paths and names are text; the text of
-- a file, and a join token, is the list of its characters by their code points.
pub mod Load
use fleetos_agent.Prelude.{
  ℕ, String, Bool, true, false, ◌&&◌, ◌||◌, Option, none, some, List, [], ◌∷◌, ◌≡◌, Bytes, ltb, leb,
  ◌==◌, if◌then◌else◌,
}
use fleetos_agent.Errors.{AgentError, config, Result, ok, err, ◌>>=◌, ◌>>◌}
use text.Mathlib.Text.{◌==◌ as str_eq}

-- `char::is_whitespace`: the code points with the property `White_Space` of Unicode.
unfoldable pub is_whitespace : ℕ → Bool
is_whitespace c =
    leb 9 c && leb c 13
    || (c == 32 || c == 133 || c == 160 || c == 5760)
    || leb 8192 c && leb c 8202
    || (c == 8232 || c == 8233 || c == 8239 || c == 8287 || c == 12288)

unfoldable pub trim_start : List ℕ → List ℕ
trim_start [] = []
trim_start (c ∷ text) = let rest = trim_start text in if is_whitespace c then rest else c ∷ text

abbrev cons_trimmed : ℕ → List ℕ → List ℕ
cons_trimmed c [] = if is_whitespace c then [] else c ∷ []
cons_trimmed c (d ∷ rest) = c ∷ d ∷ rest

unfoldable pub trim_end : List ℕ → List ℕ
trim_end [] = []
trim_end (c ∷ text) = cons_trimmed c (trim_end text)

-- `str::trim`.
abbrev pub trim : List ℕ → List ℕ
trim text = trim_end (trim_start text)

-- Whether a number is at most 0.0, and at least 1.0: both are false of what is not a number.
pub record Floats : Type 1 where
  pub F64 : Type 0
  pub le_zero : F64 → Bool
  pub ge_one : F64 → Bool
  pub three_quarters : F64
  pub three_quarters_inside : (le_zero three_quarters || ge_one three_quarters) ≡ false

pub data JoinMode : Type 0 where
  secure insecure : JoinMode

pub data TpmBackend : Type 0 where
  device swtpm mssim : TpmBackend

pub record ImagesConfig : Type 0 where
  pub cache_path : String

pub record ObservabilityConfig : Type 0 where
  pub otlp_endpoint : String
  pub push_interval_secs : ℕ

pub record NodeConfig : Type 0 where
  pub name : String
  pub trust_domain : String

pub record ControlConfig : Type 0 where
  pub address : String
  pub trust_bundle_path : String

pub record JoinConfig : Type 0 where
  pub mode : JoinMode
  pub token : List ℕ
  pub join_token_path : Option String
  pub trust_bundle_path : Option String
  pub pcr_indices : List ℕ

pub record NetworkingConfig : Type 0 where
  pub workload_ip_cidr : String

pub record TpmConfig : Type 0 where
  pub backend : TpmBackend
  pub device_path : String
  pub host : String
  pub port : ℕ

pub record StorageConfig : Type 0 where
  pub fjall_path : String

pub record EbpfConfig : Type 0 where
  pub object_path : String
  pub cgroup_path : String
  pub pin_path : String
  pub map_headroom_percent : ℕ
  pub interfaces : List String

pub record VsockAttestConfig : Type 0 where
  pub port : ℕ
  pub kernel_path : Option String
  pub rootfs_path : Option String
  pub guest_init_path : Option String

abbrev pub default_images : ImagesConfig
default_images = record { cache_path = "/var/lib/fleetos/images" }

abbrev pub default_observability : ObservabilityConfig
default_observability = record { otlp_endpoint = ""; push_interval_secs = 5 }

abbrev pub default_join : JoinConfig
default_join = record {
  mode = secure;
  token = [];
  join_token_path = none;
  trust_bundle_path = none;
  pcr_indices = 0 ∷ 7 ∷ 9 ∷ [];
}

abbrev pub default_networking : NetworkingConfig
default_networking = record { workload_ip_cidr = "172.30.0.0/16" }

abbrev pub default_tpm : TpmConfig
default_tpm = record {
  backend = device;
  device_path = "/dev/tpmrm0";
  host = "localhost";
  port = 2321;
}

abbrev pub default_ebpf : EbpfConfig
default_ebpf = record {
  object_path = "/usr/lib/fleetos/fleetos-ebpf";
  cgroup_path = "/sys/fs/cgroup";
  pin_path = "/sys/fs/bpf/fleetos";
  map_headroom_percent = 20;
  interfaces = [];
}

-- The port is 0x4649.
abbrev pub default_vsock_attest : VsockAttestConfig
default_vsock_attest = record {
  port = 17993;
  kernel_path = none;
  rootfs_path = none;
  guest_init_path = none;
}

-- Where a TPM is reached, as fleetos-core names it.
pub data TpmEndpoint : Type 0 where
  device_at : String → TpmEndpoint
  swtpm_at mssim_at : String → ℕ → TpmEndpoint

abbrev pub endpoint_of : TpmBackend → TpmConfig → TpmEndpoint
endpoint_of device tpm = device_at tpm.device_path
endpoint_of swtpm tpm = swtpm_at tpm.host tpm.port
endpoint_of mssim tpm = mssim_at tpm.host tpm.port

abbrev pub is_empty : String → Bool
is_empty text = str_eq text ""

abbrev pub is_insecure : JoinMode → Bool
is_insecure insecure = true
is_insecure secure = false

abbrev pub no_bytes : Bytes → Bool
no_bytes [] = true
no_bytes (b ∷ bytes) = false

-- An error where the test holds.
abbrev pub fail_if : Bool → String → Result (Unit {0})
fail_if test message = if test then err (config message) else ok tt

module _ (floats : Floats) where
  pub record SvidConfig : Type 0 where
    pub ttl_secs : ℕ
    pub refresh_fraction : floats.F64
    pub workload_ttl_secs : ℕ
    pub delegated_key_ttl_secs : ℕ

  abbrev pub default_svid : SvidConfig
  default_svid = record {
    ttl_secs = 3600;
    refresh_fraction = floats.three_quarters;
    workload_ttl_secs = 3600;
    delegated_key_ttl_secs = 14400;
  }

  pub record AgentConfig : Type 0 where
    pub node : NodeConfig
    pub control : ControlConfig
    pub join : JoinConfig
    pub tpm : TpmConfig
    pub storage : StorageConfig
    pub ebpf : EbpfConfig
    pub svid : SvidConfig
    pub vsock_attest : VsockAttestConfig
    pub images : ImagesConfig
    pub networking : NetworkingConfig
    pub observability : ObservabilityConfig

  -- What a file holds that gives only what has no default.
  abbrev pub with_defaults : NodeConfig → ControlConfig → StorageConfig → AgentConfig
  with_defaults node control storage = record {
    node = node;
    control = control;
    join = default_join;
    tpm = default_tpm;
    storage = storage;
    ebpf = default_ebpf;
    svid = default_svid;
    vsock_attest = default_vsock_attest;
    images = default_images;
    networking = default_networking;
    observability = default_observability;
  }

  unfoldable pub validate : AgentConfig → Result (Unit {0})
  validate c = do
    fail_if (is_empty c.node.name) "node.name cannot be empty"
    fail_if (is_empty c.node.trust_domain) "node.trust_domain cannot be empty"
    fail_if (is_empty c.control.address) "control.address cannot be empty"
    fail_if (floats.le_zero c.svid.refresh_fraction || floats.ge_one c.svid.refresh_fraction)
        "svid.refresh_fraction must be in (0.0, 1.0)"
    fail_if (ltb 100 c.ebpf.map_headroom_percent) "ebpf.map_headroom_percent must be <= 100"
    fail_if (is_insecure c.join.mode && no_bytes c.join.token)
        "join.token is required when join.mode = \"insecure\""

  module _ (read_to_string : String → Option (List ℕ))
      (from_str : List ℕ → Option AgentConfig) where
    abbrev pub contents : String → String → Result (List ℕ)
    contents message path = elim (read_to_string path) [
      | none ↦ err (config message)
      | some raw ↦ ok raw
    ]

    abbrev pub parsed : List ℕ → Result AgentConfig
    parsed raw = elim (from_str raw) [
      | none ↦ err (config "failed to parse config")
      | some c ↦ ok c
    ]

    -- The token of the file takes precedence.
    abbrev pub resolve_token : Option String → AgentConfig → Result AgentConfig
    resolve_token none c = ok c
    resolve_token (some token_path) c =
        contents "failed to read join token file" token_path >>= λ token.
        ok (record c { join = record c.join { token = trim token } })

    unfoldable pub load : String → Result AgentConfig
    load path = contents "failed to read config" path >>= λ raw. parsed raw >>= λ c.
        resolve_token c.join.join_token_path c >>= λ resolved. (validate resolved >> ok resolved)

  unfoldable pub tpm_endpoint : AgentConfig → TpmEndpoint
  tpm_endpoint c = endpoint_of c.tpm.backend c.tpm

  abbrev pub endpoint_in : JoinMode → TpmEndpoint → Option TpmEndpoint
  endpoint_in insecure endpoint = none
  endpoint_in secure endpoint = some endpoint

  unfoldable pub sealing_endpoint : AgentConfig → Option TpmEndpoint
  unfolding tpm_endpoint
  sealing_endpoint c = endpoint_in c.join.mode (tpm_endpoint c)
