-- ===== src/Ebpf/NetGuard.antt =====
-- src/ebpf/net_guard_adapter.rs and the guard of src/ebpf/programs.rs: what is attached to the interfaces
-- of virtual machines, and the gate of the kernel's programs. What the kernel answers to each call is an
-- argument. A link stays attached when its guard is dropped, as src/ebpf/programs.rs says, and a program
-- stays loaded. The registry
-- of source identities is a kernel map.
pub mod Gate
use fleetos_agent.Prelude.{
  ℕ, String, Bool, true, false, if◌then◌else◌, Option, none, some, List, [], ◌∷◌, Bytes,
}
use fleetos_agent.Errors.{AgentError, ebpf, Result, ok, err}
use fleetos_agent.Exec.{Exec, pure, lift, ◌>>=◌, ◌>>◌}
use fleetos_agent.Collections.Key.{nat_key, string_key}
use fleetos_agent.Collections.HashMap
use fleetos_agent.KernelMap.{KernelMap}

pub data TcAttachType : Type 0 where
  egress ingress : TcAttachType

-- The interface of a guard; its two links are those of `attached`.
pub record VmNetGuard : Type 0 where
  pub interface : String

pub record VmNetGuardAdapter : Type 0 where
  pub boot_gate : ℕ
  pub guards : List (String × VmNetGuard)
  pub attached : List (String × TcAttachType)
  pub loaded : List TcAttachType

-- What the kernel answers to the calls of an `arm`, and to that of a `disarm`.
pub record Kernel : Type 0 where
  pub load_egress : Result (Unit {0})
  pub attach_egress : Result (Unit {0})
  pub load_ingress : Result (Unit {0})
  pub attach_ingress : Result (Unit {0})
  pub gate_set : Result (Unit {0})

abbrev pub changed :
    Result (Unit {0})
    → VmNetGuardAdapter
    → VmNetGuardAdapter
    → Result (Unit {0}) × VmNetGuardAdapter
changed (ok u) before after = (ok tt, after)
changed (err e) before after = (err e, before)

abbrev pub same_direction : TcAttachType → TcAttachType → Bool
same_direction egress egress = true
same_direction ingress ingress = true
same_direction _ _ = false

unfoldable pub is_loaded : TcAttachType → List TcAttachType → Bool
is_loaded direction [] = false
is_loaded direction (x ∷ loaded) =
    if same_direction direction x then true else is_loaded direction loaded

-- `tc.load()`: aya answers `AlreadyLoaded` for a program that was loaded before.
unfoldable pub load_tc : Result (Unit {0}) → TcAttachType → Exec VmNetGuardAdapter (Unit {0})
unfolding is_loaded
load_tc answer direction a =
    if is_loaded direction a.loaded
    then (err (ebpf "the program is already loaded"), a)
    else changed answer a (record a { loaded = direction ∷ a.loaded })

abbrev pub attach_to : Result (Unit {0}) → String → TcAttachType → Exec VmNetGuardAdapter (Unit {0})
attach_to answer interface direction a =
    changed answer a (record a { attached = (interface, direction) ∷ a.attached })

unfoldable pub attach_tc :
    Result (Unit {0})
    → Result (Unit {0})
    → String
    → TcAttachType
    → Exec VmNetGuardAdapter (Unit {0})
unfolding load_tc
attach_tc loading answer interface direction =
    load_tc loading direction >> attach_to answer interface direction

-- `arm_boot_gate` with 1 and the call of `disarm` with 0.
unfoldable pub set_boot_gate : Result (Unit {0}) → ℕ → Exec VmNetGuardAdapter (Unit {0})
set_boot_gate answer value a = changed answer a (record a { boot_gate = value })

abbrev pub keep_guard : String → Exec VmNetGuardAdapter (Unit {0})
keep_guard interface a = (
  ok tt,
  record a { guards = HashMap.insert interface (record { interface = interface }) a.guards },
)

unfoldable pub arm : Kernel → String → Exec VmNetGuardAdapter (Unit {0})
unfolding attach_tc set_boot_gate
arm kernel interface = do
  attach_tc kernel.load_egress kernel.attach_egress interface egress
  attach_tc kernel.load_ingress kernel.attach_ingress interface ingress
  set_boot_gate kernel.gate_set 1
  keep_guard interface

abbrev pub drop_guard : String → Exec VmNetGuardAdapter (Unit {0})
drop_guard interface a = (ok tt, record a { guards = HashMap.remove interface a.guards })

unfoldable pub disarm : Result (Unit {0}) → String → Exec VmNetGuardAdapter (Unit {0})
unfolding set_boot_gate
disarm answer interface = drop_guard interface >> set_boot_gate answer 0

module _ (src_identity_map : KernelMap ℕ Bytes) where
  abbrev pub register : ℕ → Bytes → src_identity_map.Space → Result src_identity_map.Space
  register source_ip fingerprint s = src_identity_map.insert source_ip fingerprint s

  abbrev pub unregister : ℕ → src_identity_map.Space → Result src_identity_map.Space
  unregister source_ip s = src_identity_map.remove source_ip s
