-- ===== src/Identity/Svid/Load.antt =====
-- src/identity/svid.rs: `load`, which reads the installed chain back from storage.
use fleetos_agent.Prelude.{List, Bytes, if◌then◌else◌}
use fleetos_agent.Errors.{identity, Result, ok, ◌>>=◌}
use fleetos_agent.Storage.{Keyspace}
use fleetos_agent.Identity.Svid.{
  Postcard, SvidState, key_cert_chain, key_version, key_generation, key_installed, default_state,
  is_installed, ok_or, read_u64,
}

module _ (storage : Keyspace) (postcard : Postcard (List Bytes)) where
  open storage use {Space}

  unfoldable pub load_installed : Space → Result SvidState
  load_installed s = do
    found_chain ← storage.get s key_cert_chain
    cert_chain_raw ← ok_or found_chain (identity "SVID marked installed but cert chain missing")
    cert_chain_der ← postcard.from_bytes cert_chain_raw
    found_version ← storage.get s key_version
    version_raw ← ok_or found_version (identity "SVID marked installed but version missing")
    svid_version ← read_u64 version_raw (identity "corrupt svid_version")
    found_generation ← storage.get s key_generation
    gen_raw ← ok_or found_generation (identity "SVID marked installed but generation missing")
    generation ← read_u64 gen_raw (identity "corrupt generation")
    ok (record {
      cert_chain_der = cert_chain_der;
      svid_version = svid_version;
      generation = generation;
    })

  unfoldable pub load : Space → Result SvidState
  load s = do
    installed_bytes ← storage.get s key_installed
    if is_installed installed_bytes then load_installed s else ok default_state
