-- ===== src/Examples/Frames.antt =====
-- The frames of the watch streams, with maps held in memory, and a rotated secret.
use fleetos_agent.Prelude.{ℕ, ◌<◌, Bytes, true, none, [], ◌∷◌, ◌≡◌, ◌⊎◌, refl}
use fleetos_agent.Prelude.Words.{to_le_bytes}
use fleetos_agent.Collections.Key.{nat_key, bytes_key, string_key}
use fleetos_agent.Collections.HashSet
use fleetos_agent.Collections.HashSet.{contains, absent_from, insert_each, remove_each}
use fleetos_agent.Collections.HashMap
use fleetos_agent.Collections.HashMap.{lookup}
use fleetos_agent.Errors.{Result, ok}
use fleetos_agent.KernelMap.{KernelMap}
use fleetos_agent.Routes.Table.{new_state}
use fleetos_agent.Policy.Sync.{
  PolicySyncState, compile_and_sync, apply_mutations_to_state, compute_sync_mutations,
  convert_rules, sync_loop,
}
use fleetos_agent.Secret.Deliver.{ProtoSealedSecret}
use fleetos_agent.Storage.{memory}
use fleetos_agent.Workloads.Pods.{PodManager, containerd, new_pod}
use fleetos_agent.Wiring.{reevaluate_router_connected}
use fleetos_agent.Wiring.Connected.{Connected, reevaluate-Connected}
use fleetos_agent.Wiring.Routes.{RoutesWatch}
use fleetos_agent.Wiring.Policies.{
  Maps, SagUpdate, sync_policy, apply_mutations_to_maps, insert_all, remove_all,
}
use fleetos_agent.Wiring.Policies.InSync.{InSync, sync_policy-InSync}
use fleetos_agent.Wiring.Secrets.{Files, SecretsHandler, handle_rotation}
use fleetos_agent.Wiring.Rotations.{Outcome, handle_rotation-Outcome}
use fleetos_agent.Examples.Sync.{core, routes, locals, update, memory_map, compiler, compile}
use fleetos_agent.Examples.Keys.{crypto, blobs, tuples, random}

abbrev pods : PodManager
pods = ("p", new_pod "p" "web" "t" "role" containerd [] 5) ∷ []

reevaluate-Connected_example :
    Connected core update.routes "td" pods
      (reevaluate_router_connected core update.routes "td" pods)
reevaluate-Connected_example = reevaluate-Connected core update.routes "td" pods

abbrev watch : RoutesWatch core routes locals
watch = record {
  route_state = new_state;
  maps = ([], []);
  dummy_ip_routes = [];
  hosts_content = [];
  pods = pods;
}

abbrev policies : KernelMap Bytes ℕ
policies = memory_map Bytes ℕ

abbrev before : Maps compiler policies policies
before = record { exact = []; wildcard = [] }

abbrev empty_state : PolicySyncState
empty_state = record { current_version = 1; exact_keys = []; wildcard_keys = [] }

abbrev frame : SagUpdate compiler policies policies
frame = record { version = 2; rules = 4 ∷ [] }

abbrev synced_state : PolicySyncState
synced_state = record { current_version = 2; exact_keys = (4 ∷ []) ∷ []; wildcard_keys = [] }

abbrev synced : Maps compiler policies policies
synced = record { exact = (4 ∷ [], 1) ∷ []; wildcard = [] }

sync_policy-InSync_example :
    InSync compiler policies policies synced_state synced
    × ((1 < 2) ⊎ ((synced_state ≡ empty_state) × (synced ≡ before)))
unfolding sync_policy compile_and_sync compute_sync_mutations apply_mutations_to_state convert_rules
    apply_mutations_to_maps insert_all remove_all sync_loop contains absent_from remove_each
    insert_each HashSet.insert HashMap.insert lookup
sync_policy-InSync_example =
    sync_policy-InSync compiler policies policies compile empty_state synced_state frame "td" before
      synced refl (record { exact = λ b. refl; wildcard = λ b. refl })

-- A disk that is the last write.
abbrev files : Files
files = record {
  Disk = Bytes × Bytes;
  create_secrets_dir = λ disk. ok disk;
  write = λ name bytes disk. ok (name, bytes);
}

abbrev handler : SecretsHandler files memory memory crypto blobs tuples (λ text. true)
handler = record { delegation_space = []; sequence_space = []; disk = ([], []); secrets = [] }

abbrev fetched : Result ProtoSealedSecret
fetched = ok (record {
  target_spiffe_id = 47 ∷ 1 ∷ [];
  sealed_for_svid_version = 1;
  sequence = 1;
  ephemeral_pubkey = to_le_bytes 32 2;
  ciphertext = 7 ∷ [];
})

handle_rotation-Outcome_example :
    Outcome files memory memory crypto blobs tuples
      (λ text. true)
      random
      none
      fetched
      (47 ∷ 1 ∷ [])
      handler
      (handle_rotation files memory memory crypto blobs tuples
        (λ text. true)
        random
        none
        fetched
        (47 ∷ 1 ∷ [])
        handler)
handle_rotation-Outcome_example =
    handle_rotation-Outcome files memory memory crypto blobs tuples (λ text. true) random none
      fetched (47 ∷ 1 ∷ []) handler
