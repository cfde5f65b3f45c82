-- ===== src/Workloads/Volumes.antt =====
-- src/workloads/volumes/mod.rs: the mounts of a pod. The file system belongs to the standard library, so
-- its state, its paths and the operations on them are parameters.
pub mod Closed
use fleetos_agent.Prelude.{
  ℕ, String, Bool, true, false, Option, none, some, List, [], ◌∷◌, ◌≡◌, if◌then◌else◌,
}
use fleetos_agent.Errors.{AgentError, workload, Result, ok, err}
use fleetos_agent.Exec.{Exec, pure, raise, reads, writes, written, ◌>>=◌, ◌>>◌}
use fleetos_agent.Workloads.Messages.{Source, empty_dir, host_path, Volume, VolumeMount}
use text.Mathlib.Text.{◌==◌ as str_eq}

-- What is assumed of a file system: what removing a directory achieves, and that joining an absolute path
-- replaces what it is joined to, as `PathBuf::join` does.
pub record Filesystem : Type 1 where
  pub Disk : Type 0
  pub PathBuf : Type 0
  pub path_of : String → PathBuf
  pub join : PathBuf → String → PathBuf
  pub is_absolute : String → Bool
  pub join-absolute :
      (parent : PathBuf) (name : String) → is_absolute name ≡ true → join parent name ≡ path_of name
  pub exists : Disk → PathBuf → Bool
  pub create_dir_all : PathBuf → Disk → Result Disk
  pub remove_dir_all : PathBuf → Disk → Result Disk
  pub exists-remove_dir_all :
      (path : PathBuf) (disk after : Disk)
      → remove_dir_all path disk ≡ ok after
      → exists after path ≡ false

pub data VolumeSource : Type 0 where
  empty_dir_volume : Option ℕ → VolumeSource
  host_path_volume : ℕ → VolumeSource

unfoldable pub find_volume : String → List Volume → Option Volume
find_volume name [] = none
find_volume name (v ∷ volumes) = if str_eq v.name name then some v else find_volume name volumes

module _ (fs : Filesystem) where
  open fs use {Disk, PathBuf}

  pub record PreparedMount : Type 0 where
    pub name : String
    pub mount_path : String
    pub read_only : Bool
    pub host_path : PathBuf
    pub source : VolumeSource

  pub record VolumeConfig : Type 0 where
    pub scratch_root : PathBuf
    pub allow_host_path : Bool

  abbrev pub default_config : VolumeConfig
  default_config = record {
    scratch_root = fs.path_of "/var/lib/fleetos/scratch";
    allow_host_path = false;
  }

  abbrev pub prepared : Volume → VolumeMount → PathBuf → VolumeSource → PreparedMount
  prepared volume mount path source = record {
    name = volume.name;
    mount_path = mount.mount_path;
    read_only = mount.read_only;
    host_path = path;
    source = source;
  }

  abbrev pub scratch_path : VolumeConfig → String → Volume → PathBuf
  scratch_path config pod_id volume = fs.join (fs.join config.scratch_root pod_id) volume.name

  abbrev pub prepare_host_path :
      VolumeConfig → Volume → VolumeMount → String → ℕ → Disk → Result PreparedMount
  prepare_host_path config volume mount path host_path_type disk =
      if config.allow_host_path
      then (if fs.exists disk (fs.path_of path)
          then ok (prepared volume mount (fs.path_of path) (host_path_volume host_path_type))
          else err (workload "hostPath volume rejected: path does not exist"))
      else err (workload "hostPath volume rejected: HostPath is disabled by default")

  -- The match on the volume's source.
  unfoldable pub prepare_source :
      VolumeConfig → String → Volume → VolumeMount → Option Source → Exec Disk PreparedMount
  prepare_source config pod_id volume mount (some (empty_dir size_limit_bytes)) =
      let path = scratch_path config pod_id volume in
      writes (fs.create_dir_all path)
      >> pure (prepared volume mount path (empty_dir_volume size_limit_bytes))
  prepare_source config pod_id volume mount (some (host_path path host_path_type)) =
      reads (prepare_host_path config volume mount path host_path_type)
  prepare_source config pod_id volume mount none = raise (workload "volume has no source")

  unfoldable pub prepare_mount :
      VolumeConfig → String → Option Volume → VolumeMount → Exec Disk PreparedMount
  prepare_mount config pod_id none mount =
      raise (workload "volume mount references undefined volume")
  prepare_mount config pod_id (some volume) mount =
      prepare_source config pod_id volume mount volume.source

  unfoldable pub prepare_mounts :
      VolumeConfig → String → List Volume → List VolumeMount → Exec Disk (List PreparedMount)
  prepare_mounts config pod_id volumes [] = pure []
  prepare_mounts config pod_id volumes (mount ∷ mounts) = do
    pm ← prepare_mount config pod_id (find_volume mount.name volumes) mount
    rest ← prepare_mounts config pod_id volumes mounts
    pure (pm ∷ rest)

  unfoldable pub teardown_pod_scratch : VolumeConfig → String → Exec Disk (Unit {0})
  teardown_pod_scratch config pod_id disk =
      let pod_dir = fs.join config.scratch_root pod_id in
      if fs.exists disk pod_dir
      then written disk (fs.remove_dir_all pod_dir disk)
      else (ok tt, disk)
