-- ===== src/Secret/Deliver.antt =====
-- src/secret/deliver.rs: the delivery of a sealed secret. Opening a sealed secret is an operation of
-- fleetos-core and a parameter here; nothing is assumed of it.
pub mod Delivery
use fleetos_agent.Prelude.{
  ℕ, Bool, true, false, Option, none, some, Bytes, length, ◌==◌, if◌then◌else◌,
}
use fleetos_agent.Errors.{AgentError, secret, Result, ok, err}
use fleetos_agent.Exec.{Exec, raise, lift, ◌>>=◌}
use fleetos_agent.Storage.{Keyspace}
use fleetos_agent.Identity.Sequences.{check_and_record}

pub record ProtoSealedSecret : Type 0 where
  pub target_spiffe_id : Bytes
  pub sealed_for_svid_version : ℕ
  pub sequence : ℕ
  pub ephemeral_pubkey : Bytes
  pub ciphertext : Bytes

pub record CoreSealedSecret : Type 0 where
  pub sealed_for_svid_version : ℕ
  pub sequence : ℕ
  pub ephemeral_pubkey : Bytes
  pub ciphertext : Bytes

abbrev pub core_secret : ProtoSealedSecret → CoreSealedSecret
core_secret proto = record {
  sealed_for_svid_version = proto.sealed_for_svid_version;
  sequence = proto.sequence;
  ephemeral_pubkey = proto.ephemeral_pubkey;
  ciphertext = proto.ciphertext;
}

unfoldable pub proto_to_core : ProtoSealedSecret → Result CoreSealedSecret
proto_to_core proto =
    if length proto.ephemeral_pubkey == 32
    then ok (core_secret proto)
    else err (secret "ephemeral_pubkey must be 32 bytes")

abbrev pub or_unseal_failed : Option Bytes → Result Bytes
or_unseal_failed none = err (secret "unseal failed")
or_unseal_failed (some plaintext) = ok plaintext

module _ (storage : Keyspace) (unseal : Bytes → CoreSealedSecret → Option Bytes) where
  open storage use {Space}

  unfoldable pub deliver_secret : ProtoSealedSecret → Bytes → Exec Space Bytes
  unfolding proto_to_core
  deliver_secret proto private_key = do
    accepted ←
        check_and_record storage proto.target_spiffe_id proto.sealed_for_svid_version proto.sequence
    if accepted
        then (do
          core ← lift (proto_to_core proto)
          lift (or_unseal_failed (unseal private_key core)))
        else raise (secret "secret rejected: sequence is not newer")
