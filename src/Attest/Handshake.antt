-- ===== src/Attest/Handshake.antt =====
-- src/vsock_attest/mod.rs: the material registered for each guest and the handshake over a connection.
-- The connection is what it will deliver, how many writes it still takes, and what was written.
-- The protocol version of the challenge is a constant and left out. The configuration that src/vsock_attest/config_push.rs builds is an argument.
pub mod Transcript
use fleetos_agent.Prelude.{
  ℕ, zero, suc, Bool, true, false, Option, none, some, List, [], ◌∷◌, ◌++◌, Bytes,
}
use fleetos_agent.Collections.Key.{nat_key}
use fleetos_agent.Collections.HashMap
use fleetos_agent.Errors.{AgentError, internal, Result, ok, err}
use fleetos_agent.Exec.{Exec, pure, lift, reads, writes, ◌>>=◌, ◌>>◌}
use fleetos_agent.Attest.Verify.{
  QuoteTypes, VsockAttestationProof, BootMeasurement, VerifiedGuest, verify,
}

-- The reason of a rejection is the text of the error; an acceptance has none.
pub data Message (Config : Type 0) : Type 0 where
  challenge : Bytes → Message Config
  attest_result : Bool → Option AgentError → Message Config
  workload_config : Config → Message Config

pub record Stream (Config : Type 0) : Type 0 where
  pub incoming : Result VsockAttestationProof
  pub writable : ℕ
  pub sent : List (Message Config)

-- The maps of the server, by the guest's CID.
pub record VsockAttestServer (Context : Type 0) : Type 0 where
  pub boot_measurements : List (ℕ × BootMeasurement)
  pub workload_contexts : List (ℕ × Context)

module _ {Context : Type 0} where
  unfoldable pub register_boot_measurement :
      ℕ → BootMeasurement → VsockAttestServer Context → VsockAttestServer Context
  register_boot_measurement cid measurement server = record server {
    boot_measurements = HashMap.insert cid measurement server.boot_measurements;
  }

  unfoldable pub unregister_boot_measurement :
      ℕ → VsockAttestServer Context → VsockAttestServer Context
  unregister_boot_measurement cid server = record server {
    boot_measurements = HashMap.remove cid server.boot_measurements;
  }

  unfoldable pub register_workload_context :
      ℕ → Context → VsockAttestServer Context → VsockAttestServer Context
  register_workload_context cid context server = record server {
    workload_contexts = HashMap.insert cid context server.workload_contexts;
  }

  unfoldable pub unregister_workload_context :
      ℕ → VsockAttestServer Context → VsockAttestServer Context
  unregister_workload_context cid server = record server {
    workload_contexts = HashMap.remove cid server.workload_contexts;
  }

module _ {Config : Type 0} where
  abbrev pub take_write : ℕ → Message Config → Stream Config → Result (Stream Config)
  take_write zero msg stream = err (internal "write failed")
  take_write (suc n) msg stream =
      ok (record stream { writable = n; sent = stream.sent ++ (msg ∷ []) })

  abbrev pub write_msg : Message Config → Exec (Stream Config) (Unit {0})
  write_msg msg = writes λ stream. take_write stream.writable msg stream

  abbrev pub read_msg : Exec (Stream Config) VsockAttestationProof
  read_msg = reads λ stream. stream.incoming

  abbrev pub result_of : Result VerifiedGuest → Message Config
  result_of (ok guest) = attest_result true none
  result_of (err e) = attest_result false (some e)

module _ {Context Config : Type 0} (types : QuoteTypes) (production : Bool)
    (build : VerifiedGuest → Context → Result Config)
    (build_fallback : VerifiedGuest → Result Config) where
  abbrev pub config_for : VerifiedGuest → Option Context → Result Config
  config_for guest (some context) = build guest context
  config_for guest none = build_fallback guest

  -- The fourth step, for a guest that was accepted.
  abbrev pub push_config : Result VerifiedGuest → Option Context → Exec (Stream Config) (Unit {0})
  push_config (ok guest) context = do
    config ← lift (config_for guest context)
    write_msg (workload_config config)
  push_config (err e) context = pure tt

  unfoldable pub handle_connection :
      VsockAttestServer Context → ℕ → Bytes → Exec (Stream Config) (Unit {0})
  handle_connection server peer_cid nonce = do
    write_msg (challenge nonce)
    proof ← read_msg
    write_msg (
        result_of
          (verify types production proof nonce (HashMap.lookup peer_cid server.boot_measurements)))
    push_config
        (verify types production proof nonce (HashMap.lookup peer_cid server.boot_measurements))
        (HashMap.lookup peer_cid server.workload_contexts)
