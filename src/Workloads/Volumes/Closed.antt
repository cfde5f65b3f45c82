-- ===== src/Workloads/Volumes/Closed.antt =====
-- The mounts of src/workloads/volumes/mod.rs with host paths disabled, and the teardown of a pod's directory.
use fleetos_agent.Prelude.{
  ℕ, String, true, false, Option, some, List, [], ◌∷◌, ◌≡◌, arith, inl, inr, Bool-cases,
}
use fleetos_agent.Errors.{ok, Result-cases}
use fleetos_agent.Workloads.Messages.{empty_dir, Volume, VolumeMount}
use fleetos_agent.Workloads.Volumes.{
  Filesystem, empty_dir_volume, PreparedMount, VolumeConfig, find_volume, prepared, scratch_path,
  teardown_pod_scratch,
}

module _ (fs : Filesystem) where
  -- The directory of an EmptyDir volume, for the volume that the mount names.
  pub record Scratch (config : VolumeConfig fs) (pod_id : String) (volumes : List Volume)
      (mount : VolumeMount) (pm : PreparedMount fs) : Type 0 where
    pub volume : Volume
    pub size : Option ℕ
    pub found : find_volume mount.name volumes ≡ some volume
    pub source_is : volume.source ≡ some (empty_dir size)
    pub is_scratch :
        pm ≡ prepared fs volume mount (scratch_path fs config pod_id volume) (empty_dir_volume size)

  -- One for each mount, in order.
  abbrev pub AllScratch :
      VolumeConfig fs → String → List Volume → List VolumeMount → List (PreparedMount fs) → Type 0
  AllScratch config pod_id volumes [] [] = Unit
  AllScratch config pod_id volumes (mount ∷ mounts) (pm ∷ ms) =
      Scratch config pod_id volumes mount pm × AllScratch config pod_id volumes mounts ms
  AllScratch _ _ _ _ _ = ⊥

  -- A volume whose name is an absolute path is prepared at that path, wherever the scratch root is.
  absolute_name_escapes :
      (config : VolumeConfig fs) (pod_id : String) (volume : Volume)
      → fs.is_absolute volume.name ≡ true
      → scratch_path fs config pod_id volume ≡ fs.path_of volume.name
  absolute_name_escapes config pod_id volume h =
      fs.join-absolute (fs.join config.scratch_root pod_id) volume.name h

  -- A teardown that succeeds leaves no directory of the pod.
  pub teardown_removes :
      (config : VolumeConfig fs) (pod_id : String) (disk after : fs.Disk)
      → teardown_pod_scratch fs config pod_id disk ≡ (ok tt, after)
      → fs.exists after (fs.join config.scratch_root pod_id) ≡ false
  unfolding teardown_pod_scratch
  teardown_removes config pod_id disk after e =
      let pod_dir = fs.join config.scratch_root pod_id in
      elim (Bool-cases (fs.exists disk pod_dir)) [
        | inl there ↦ elim (Result-cases (fs.remove_dir_all pod_dir disk)) [
          | inl (u, q) ↦ fs.exists-remove_dir_all pod_dir disk after (ground arith)
          | inr (e', q) ↦ absurd (ground arith)
        ]
        | inr gone ↦ ground arith
      ]
