-- ===== src/Secret/Deliver/Delivery.antt =====
-- Deliveries of src/secret/deliver.rs, one after the other.
use fleetos_agent.Prelude.{
  ◌<◌, ◌≤◌, ◌≡◌, ap, ◌∙◌, ◌≢◌, ◌⊎◌, inl, inr, true, false, Option, none, some, arith, Bytes, length,
}
use fleetos_agent.Prelude.Words.{to_le_bytes}
use fleetos_agent.Errors.{ok, is_ok_true, is_err, Result-cases}
use fleetos_agent.Storage.{Keyspace}
use fleetos_agent.Identity.Sequences.{stored_sequence, or_zero, check_and_record}
use fleetos_agent.Identity.Sequences.Replay.{Attempt, InRange, try_attempt, check_cases}
use fleetos_agent.Identity.Sequences.Repeats.{attempt_key, repeat_refused}
use fleetos_agent.Secret.Deliver.{ProtoSealedSecret, CoreSealedSecret, core_secret, deliver_secret}

abbrev pub attempt_of : ProtoSealedSecret → Attempt
attempt_of proto = record {
  target = proto.target_spiffe_id;
  svid_version = proto.sealed_for_svid_version;
  sequence = proto.sequence;
}

module _ (storage : Keyspace) (unseal : Bytes → CoreSealedSecret → Option Bytes) where
  open storage use {Space, get, insert}

  -- A secret that is not accepted as newer is not delivered.
  refused_delivery :
      (s : Space) (proto : ProtoSealedSecret) (key : Bytes)
      → is_ok_true (try_attempt storage s (attempt_of proto)).0 ≡ false
      → (is_err (deliver_secret storage unseal proto key s).0 ≡ true)
        × ((deliver_secret storage unseal proto key s).1
            ≡ (try_attempt storage s (attempt_of proto)).1)
  unfolding deliver_secret
  refused_delivery s proto key h =
      elim (Result-cases (try_attempt storage s (attempt_of proto)).0) [
        | inl (b, e) ↦ ground arith
        | inr (x, e) ↦ ground arith
      ]

  delivered_parts :
      (s t : Space) (proto : ProtoSealedSecret) (key plaintext : Bytes)
      → deliver_secret storage unseal proto key s ≡ (ok plaintext, t)
      → (is_ok_true (try_attempt storage s (attempt_of proto)).0 ≡ true)
        × ((try_attempt storage s (attempt_of proto)).1 ≡ t)
        × (length proto.ephemeral_pubkey ≡ 32)
        × (unseal key (core_secret proto) ≡ some plaintext)
  unfolding deliver_secret
  delivered_parts s t proto key plaintext h =
      elim (Result-cases (try_attempt storage s (attempt_of proto)).0) [
        | inl (b, e) ↦ ground arith
        | inr (x, e) ↦ ground arith
      ]

  again_refused :
      (s t : Space) (proto again : ProtoSealedSecret)
      → InRange (attempt_of proto)
      → insert s (attempt_key (attempt_of proto)) (to_le_bytes 8 proto.sequence) ≡ ok t
      → again.target_spiffe_id ≡ proto.target_spiffe_id
      → again.sealed_for_svid_version ≡ proto.sealed_for_svid_version
      → again.sequence ≤ proto.sequence
      → (is_ok_true (try_attempt storage t (attempt_of again)).0 ≡ false)
        × ((try_attempt storage t (attempt_of again)).1 ≡ t)
  again_refused s t proto again fits stored target version older =
      rw (target, version)
        (repeat_refused storage s t (attempt_of proto) again.sequence fits stored older)

  -- A delivered secret with `u64` numbers was strictly newer than the record of its pair, its ephemeral key has 32
  -- bytes, and the plaintext is what unsealing gives. After that, no secret for the pair with the
  -- same or a lower sequence is delivered, and an attempt changes nothing.
  pub delivered_once :
      (s t : Space) (proto again : ProtoSealedSecret) (key plaintext : Bytes)
      → InRange (attempt_of proto)
      → deliver_secret storage unseal proto key s ≡ (ok plaintext, t)
      → again.target_spiffe_id ≡ proto.target_spiffe_id
      → again.sealed_for_svid_version ≡ proto.sealed_for_svid_version
      → again.sequence ≤ proto.sequence
      → ((found : Option Bytes) × (get s (attempt_key (attempt_of proto)) ≡ ok found)
          × (or_zero (stored_sequence found) < proto.sequence))
        × (length proto.ephemeral_pubkey ≡ 32)
        × (unseal key (core_secret proto) ≡ some plaintext)
        × (is_err (deliver_secret storage unseal again key t).0 ≡ true)
        × ((deliver_secret storage unseal again key t).1 ≡ t)
  delivered_once s t proto again key plaintext fits e target version older =
      let (accepted, same, long, opened) = delivered_parts s t proto key plaintext e in
      elim (check_cases storage s (attempt_of proto)) [
        | inl (refused, _) ↦ absurd (cc (accepted, refused))
        | inr (found, p, newer, stored, _) ↦
            let (stale, still) =
              again_refused s t proto again fits (stored ∙ ap ok same) target version older in
            let (failed, kept) = refused_delivery t again key stale in
            ((found, p, newer), long, opened, failed, kept ∙ still)
      ]

  failed_delivery :
      (s t : Space) (proto : ProtoSealedSecret) (key : Bytes)
      → check_and_record storage proto.target_spiffe_id proto.sealed_for_svid_version proto.sequence
          s
        ≡ (ok true, t)
      → (length proto.ephemeral_pubkey ≢ 32) ⊎ (unseal key (core_secret proto) ≡ none)
      → (is_err (deliver_secret storage unseal proto key s).0 ≡ true)
        × ((deliver_secret storage unseal proto key s).1 ≡ t)
  unfolding deliver_secret
  failed_delivery s t proto key h broken = ground arith

  -- A secret with `u64` numbers whose ephemeral key has another length, or that does not unseal, is not delivered; if
  -- its sequence is above the record all the same, that sequence is used up: no secret for the pair
  -- with this or a lower sequence is delivered afterwards, whoever sealed it.
  pub failed_uses_up :
      (s t : Space) (proto again : ProtoSealedSecret) (key : Bytes)
      → InRange (attempt_of proto)
      → check_and_record storage proto.target_spiffe_id proto.sealed_for_svid_version proto.sequence
          s
        ≡ (ok true, t)
      → (length proto.ephemeral_pubkey ≢ 32) ⊎ (unseal key (core_secret proto) ≡ none)
      → again.target_spiffe_id ≡ proto.target_spiffe_id
      → again.sealed_for_svid_version ≡ proto.sealed_for_svid_version
      → again.sequence ≤ proto.sequence
      → (is_err (deliver_secret storage unseal proto key s).0 ≡ true)
        × ((deliver_secret storage unseal proto key s).1 ≡ t)
        × (is_err (deliver_secret storage unseal again key t).0 ≡ true)
  failed_uses_up s t proto again key fits recorded broken target version older =
      let failed = failed_delivery s t proto key recorded broken in
      elim (check_cases storage s (attempt_of proto)) [
        | inl (refused, _) ↦ absurd (cc (recorded, refused))
        | inr (found, p, newer, stored, _) ↦
            let (stale, _) =
              again_refused s t proto again fits (stored ∙ ap ok (ap (λ r. r.1) recorded)) target
                version older in
            (failed.0, failed.1, (refused_delivery t again key stale).0)
      ]
