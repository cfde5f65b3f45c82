-- ===== src/Core.antt =====
-- The operations of fleetos-core on identities that the agent calls: the parsing of SPIFFE IDs and
-- roles, the fingerprint of an identity, and the byte order of addresses. They are parameters, and
-- nothing is assumed of them but that SPIFFE IDs can be compared.
use fleetos_agent.Prelude.{ℕ, String, Option, Bytes}
use fleetos_agent.Collections.Key.{Key}

pub record Core : Type 1 where
  pub SpiffeId : Type 0
  pub spiffe_key : Key SpiffeId
  pub WorkloadRole : Type 0
  pub parse_spiffe : String → Option SpiffeId
  pub to_text : SpiffeId → String
  pub name : SpiffeId → String
  pub tenant : SpiffeId → String
  pub new_sa : String → String → String → SpiffeId
  pub parse_role : String → Option WorkloadRole
  pub fingerprint : SpiffeId → Option WorkloadRole → Bytes
  pub from_network : ℕ → ℕ
