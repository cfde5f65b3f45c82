-- ===== src/KernelMap.antt =====
-- A hash map of the kernel, as aya gives access to it. Its state and operations are parameters:
-- either may fail, and one that succeeds has changed the entry of its own key only.
use fleetos_agent.Prelude.{◌≡◌, Option, none, some, if◌then◌else◌}
use fleetos_agent.Errors.{Result, ok}
use fleetos_agent.Collections.Key.{Key}

pub record KernelMap (K V : Type 0) ⦃k : Key K⦄ : Type 1 where
  pub Space : Type 0
  pub entry : K → Space → Option V
  pub insert : K → V → Space → Result Space
  pub remove : K → Space → Result Space
  pub entry-insert :
      (key other : K) (v : V) (s t : Space)
      → insert key v s ≡ ok t
      → entry other t ≡ (if k.same key other then some v else entry other s)
  pub entry-remove :
      (key other : K) (s t : Space)
      → remove key s ≡ ok t
      → entry other t ≡ (if k.same key other then none else entry other s)
