-- ===== src/Examples/Identity.antt =====
-- The replay protection, the delivery of secrets and the node's certificate chain, on a keyspace held
-- in memory.
use fleetos_agent.Prelude.{
  ℕ, ◌+◌, ◌%◌, ◌^◌, ◌<◌, true, Option, some, List, [], ◌∷◌, ◌≡◌, ◌≢◌, refl, arith, Bytes, length,
}
use fleetos_agent.Prelude.Words.{to_le_bytes}
use fleetos_agent.Collections.Key.{bytes_key}
use fleetos_agent.Collections.HashMap.{lookup, insert}
use fleetos_agent.Errors.{serialization, io, Result, ok, err, is_err}
use fleetos_agent.Storage.{
  Keyspace, memory, memory_get, memory_insert, memory_get-insert_self, memory_get-insert_ne,
}
use fleetos_agent.Identity.Sequences.{stored_sequence, or_zero, check_and_record}
use fleetos_agent.Identity.Sequences.Replay.{
  Attempt, InRange, Rising, sequences_for, accepted, accepted-Rising,
}
use fleetos_agent.Identity.Sequences.Repeats.{attempt_key}
use fleetos_agent.Secret.Deliver.{
  ProtoSealedSecret, CoreSealedSecret, core_secret, proto_to_core, deliver_secret,
}
use fleetos_agent.Secret.Deliver.Delivery.{delivered_once}
use fleetos_agent.Identity.Svid.{Postcard, SvidState, store, persist, default_state}
use fleetos_agent.Identity.Svid.Load.{load}
use fleetos_agent.Identity.Svid.Install.{Readable, IsEmpty, store_then_load, failed_install_is_none}

abbrev target : Bytes
target = 97 ∷ 98 ∷ []

abbrev attempt : ℕ → Attempt
attempt n = record { target = target; svid_version = 1; sequence = n }

attempt-InRange : (n : ℕ) → n < 256 ^ 8 → InRange (attempt n)
attempt-InRange n h = record { version_fits = omega arith; sequence_fits = h }

accepted-Rising_example : Rising 0 (
    sequences_for target 1
      (accepted memory [] (attempt 5 ∷ attempt 5 ∷ attempt 3 ∷ attempt 9 ∷ [])))
unfolding lookup stored_sequence
accepted-Rising_example =
    accepted-Rising memory [] target 1 0 (attempt 5 ∷ attempt 5 ∷ attempt 3 ∷ attempt 9 ∷ [])
      (omega arith)
      (
        attempt-InRange 5 (omega arith),
        (
          attempt-InRange 5 (omega arith),
          (attempt-InRange 3 (omega arith), (attempt-InRange 9 (omega arith), tt)),
        ),
      )
      (λ found e. ground arith)

abbrev after_five : List (Bytes × Bytes)
after_five = (attempt_key (attempt 5), to_le_bytes 8 5) ∷ []

abbrev key_32 : Bytes
key_32 = to_le_bytes 32 7

abbrev sealed : Bytes → ProtoSealedSecret
sealed key = record {
  target_spiffe_id = target;
  sealed_for_svid_version = 1;
  sequence = 5;
  ephemeral_pubkey = key;
  ciphertext = 1 ∷ 2 ∷ [];
}

abbrev unseal : Bytes → CoreSealedSecret → Option Bytes
unseal key core = some core.ciphertext

delivered_once_example :
    ((found : Option Bytes) × (memory_get [] (attempt_key (attempt 5)) ≡ ok found)
      × (or_zero (stored_sequence found) < 5))
    × (length key_32 ≡ 32)
    × (unseal [] (core_secret (sealed key_32)) ≡ some (1 ∷ 2 ∷ []))
    × (is_err (deliver_secret memory unseal (sealed key_32) [] after_five).0 ≡ true)
    × ((deliver_secret memory unseal (sealed key_32) [] after_five).1 ≡ after_five)
unfolding deliver_secret check_and_record lookup insert stored_sequence to_le_bytes proto_to_core
delivered_once_example =
    delivered_once memory unseal [] after_five (sealed key_32) (sealed key_32) [] (1 ∷ 2 ∷ [])
      (attempt-InRange 5 (omega arith)) refl refl refl (omega arith)

-- An encoding of the chains of one certificate.
abbrev encode : List Bytes → Result Bytes
encode (c ∷ []) = ok c
encode chain = err (serialization "one certificate")

abbrev decode : Bytes → Result (List Bytes)
decode bytes = ok (bytes ∷ [])

decode-encode :
    (chain : List Bytes) (bytes : Bytes) → encode chain ≡ ok bytes → decode bytes ≡ ok chain
decode-encode [] bytes e = ground arith
decode-encode (c ∷ []) bytes e = ground arith
decode-encode (c ∷ d ∷ chain) bytes e = ground arith

abbrev postcard : Postcard (List Bytes)
postcard = record {
  to_allocvec = encode;
  from_bytes = decode;
  from_bytes-to_allocvec = decode-encode;
}

abbrev chain : List Bytes
chain = (48 ∷ 130 ∷ []) ∷ []

abbrev installed : SvidState
installed = record { cert_chain_der = chain; svid_version = 7; generation = 1 }

abbrev after_store : List (Bytes × Bytes)
after_store = (store memory postcard chain 7 0 []).1

store_then_load_example :
    (load memory postcard after_store ≡ ok installed)
    × (chain ≡ chain)
    × (installed.svid_version ≡ 7)
    × (installed.generation ≡ (0 + 1) % 2 ^ 64)
unfolding store persist Readable
store_then_load_example =
    store_then_load memory postcard chain 7 0 [] after_store installed (omega arith) refl
      (λ key. refl)

-- A keyspace with room for one entry.
abbrev small_insert : List (Bytes × Bytes) → Bytes → Bytes → Result (List (Bytes × Bytes))
small_insert [] key value = memory_insert [] key value
small_insert (entry ∷ s) key value = err (io "full")

small_get-insert_self :
    (s t : List (Bytes × Bytes)) (key value : Bytes) (found : Option Bytes)
    → small_insert s key value ≡ ok t
    → memory_get t key ≡ ok found
    → found ≡ some value
small_get-insert_self [] t key value found e f = memory_get-insert_self [] t key value found e f
small_get-insert_self (entry ∷ s) t key value found e f = ground arith

small_get-insert_ne :
    (s t : List (Bytes × Bytes)) (key other value : Bytes)
    → key ≢ other
    → small_insert s key value ≡ ok t
    → memory_get t other ≡ memory_get s other
small_get-insert_ne [] t key other value ne e = memory_get-insert_ne [] t key other value ne e
small_get-insert_ne (entry ∷ s) t key other value ne e = ground arith

abbrev small : Keyspace
small = record {
  Space = List (Bytes × Bytes);
  get = memory_get;
  insert = small_insert;
  get-insert_self = small_get-insert_self;
  get-insert_ne = small_get-insert_ne;
}

abbrev torn : List (Bytes × Bytes)
torn = (store small postcard chain 7 0 []).1

failed_install_is_none_example : load small postcard torn ≡ ok default_state
unfolding store persist insert lookup IsEmpty
failed_install_is_none_example =
    failed_install_is_none small postcard chain 7 0 [] torn (io "full") refl refl
