-- ===== src/Ebpf/NetGuard/Gate.antt =====
-- The programs and the gate that the guards of src/ebpf/net_guard_adapter.rs share.
use fleetos_agent.Prelude.{Bool-cases, refl, String, ◌∷◌, ◌≡◌, arith, true, false, inl, inr}
use fleetos_agent.Errors.{AgentError, ebpf, Result, ok, err, Result-cases}
use fleetos_agent.Exec.{Exec, ◌>>◌, bind-ok}
use fleetos_agent.Collections.Key.{string_key}
use fleetos_agent.Collections.HashMap.{insert}
use fleetos_agent.Ebpf.NetGuard.{
  TcAttachType, VmNetGuardAdapter, Kernel, egress, ingress, arm, disarm, attach_tc, load_tc,
  is_loaded, keep_guard, set_boot_gate,
}

-- What a successful `arm` leaves.
pub record Armed (interface : String) (a b : VmNetGuardAdapter) : Type 0 where
  pub gate : b.boot_gate ≡ 1
  pub guards : b.guards ≡ insert interface (record { interface = interface }) a.guards
  pub attached : b.attached ≡ (interface, ingress) ∷ (interface, egress) ∷ a.attached
  pub loaded : b.loaded ≡ ingress ∷ egress ∷ a.loaded

attach_tc-ok :
    (loading answer : Result (Unit {0})) (interface : String) (direction : TcAttachType)
    (a b : VmNetGuardAdapter)
    → attach_tc loading answer interface direction a ≡ (ok tt, b)
    → (is_loaded direction a.loaded ≡ false)
      × (b ≡ record a {
        loaded = direction ∷ a.loaded;
        attached = (interface, direction) ∷ a.attached;
      })
unfolding attach_tc load_tc
attach_tc-ok loading answer interface direction a b e =
    elim (Bool-cases (is_loaded direction a.loaded)) [
      | inl there ↦ absurd (ground arith)
      | inr free ↦ elim (Result-cases loading) [
        | inr (e', q) ↦ absurd (ground arith)
        | inl (u, q) ↦ elim (Result-cases answer) [
          | inr (e', p) ↦ absurd (ground arith)
          | inl (v, p) ↦ (free, ground arith)
        ]
      ]
    ]

pub arm-Armed :
    (kernel : Kernel) (interface : String) (a b : VmNetGuardAdapter)
    → arm kernel interface a ≡ (ok tt, b)
    → Armed interface a b
unfolding arm set_boot_gate
arm-Armed kernel interface a b e =
    let attach_in : Exec VmNetGuardAdapter (Unit {0}) =
      attach_tc kernel.load_ingress kernel.attach_ingress interface ingress in
    let finish : Exec VmNetGuardAdapter (Unit {0}) =
      set_boot_gate kernel.gate_set 1 >> keep_guard interface in
    let (u, c, out, rest) =
      bind-ok (attach_tc kernel.load_egress kernel.attach_egress interface egress)
        (λ _. attach_in >> finish) a b tt e in
    let (v, d, into, rest2) = bind-ok attach_in (λ _. finish) c b tt rest in
    let first = attach_tc-ok kernel.load_egress kernel.attach_egress interface egress a c out in
    let second =
      attach_tc-ok kernel.load_ingress kernel.attach_ingress interface ingress c d into in
    elim (Result-cases kernel.gate_set) [
      | inr (e', r) ↦ absurd (ground arith)
      | inl (w, r) ↦ record {
        gate = ground arith;
        guards = ground (arith, first.1, second.1);
        attached = ground (arith, first.1, second.1);
        loaded = ground (arith, first.1, second.1);
      }
    ]

refused_when_loaded :
    (kernel : Kernel) (interface : String) (a : VmNetGuardAdapter)
    → is_loaded egress a.loaded ≡ true
    → (e : AgentError) × (arm kernel interface a ≡ (err e, a))
unfolding arm attach_tc load_tc
refused_when_loaded kernel interface a h = (ebpf "the program is already loaded", rw h refl)

-- Once an interface has been armed, no second one can be: the programs stay loaded, so every later
-- `arm` fails and changes nothing, whatever the kernel would answer, also after any interface has been
-- disarmed.
pub arms_once :
    (first second : Kernel) (answer : Result (Unit {0})) (one gone other : String)
    (a b : VmNetGuardAdapter)
    → arm first one a ≡ (ok tt, b)
    → let c = (disarm answer gone b).1 in
      ((e : AgentError) × (arm second other b ≡ (err e, b)))
      × ((e : AgentError) × (arm second other c ≡ (err e, c)))
unfolding disarm set_boot_gate is_loaded
arms_once first second answer one gone other a b e =
    let armed = arm-Armed first one a b e in
    let there : is_loaded egress b.loaded ≡ true = rw (armed.loaded) refl in
    let still : is_loaded egress (disarm answer gone b).1.loaded ≡ true =
      elim (Result-cases answer) [ inl (u, q) ↦ rw q there | inr (e', q) ↦ rw q there ] in
    (
      refused_when_loaded second other b there,
      refused_when_loaded second other (disarm answer gone b).1 still,
    )
