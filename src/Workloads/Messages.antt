-- ===== src/Workloads/Messages.antt =====
-- The messages of fleetos-core that describe a pod, with the fields that the agent reads. They are
-- generated from core's definitions; the agent uses them as records.
use fleetos_agent.Workloads.Probes.{ProbeSet}
use fleetos_agent.Prelude.{ℕ, String, Bool, Option, List}

pub data Source : Type 0 where
  empty_dir : Option ℕ → Source
  host_path : String → ℕ → Source

pub record Volume : Type 0 where
  pub name : String
  pub source : Option Source

pub record VolumeMount : Type 0 where
  pub name : String
  pub mount_path : String
  pub read_only : Bool

pub record Resources : Type 0 where
  pub vcpus : ℕ
  pub memory_mb : ℕ

pub record EnvVar : Type 0 where
  pub name : String
  pub value : String

pub record PodSpec : Type 0 where
  pub pod_id : Option String
  pub workload_id : String
  pub tenant_id : String
  pub role : String
  pub ordinal : Option ℕ
  pub resources : Option Resources
  pub volumes : List Volume
  pub volume_mounts : List VolumeMount
  pub env : List EnvVar
  pub probes : Option ProbeSet
