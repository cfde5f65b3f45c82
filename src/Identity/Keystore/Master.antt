-- ===== src/Identity/Keystore/Master.antt =====
-- The software master key of src/identity/keystore.rs.
use fleetos_agent.Prelude.{
  ℕ, Option, none, some, ◌++◌, ◌≡◌, ◌≢◌, ◌⊎◌, inl, inr, refl, sym, ap, ◌∙◌, subst, Bytes, length,
  take, drop, arith, ◌==◌, true, length-append, take-append, drop-append,
}
use fleetos_agent.Errors.{ok, is_err, Result-cases}
use fleetos_agent.Exec.{Exec, pure, writes-ok}
use fleetos_agent.Storage.{Keyspace}
use fleetos_agent.Identity.Svid.{Postcard}
use fleetos_agent.Identity.Keystore.{
  Crypto, Random, software_master_key_label, stored_pair, use_pair,
  get_or_create_software_master_key,
}

stored_pair-append :
    (priv public : Bytes)
    → length priv ≡ 32
    → length public ≡ 32
    → stored_pair (some (priv ++ public)) ≡ some (priv, public)
stored_pair-append priv public p q =
    let sized : (length (priv ++ public) == 64) ≡ true =
      ground (arith, length-append priv public, p, q) in
    let first : take 32 (priv ++ public) ≡ priv =
      subst (λ n. take n (priv ++ public) ≡ priv) p (take-append priv public) in
    let second : drop 32 (priv ++ public) ≡ public =
      subst (λ n. drop n (priv ++ public) ≡ public) p (drop-append priv public) in
    rw (sized, first, second) refl

module _ (storage : Keyspace) (crypto : Crypto) (blobs : Postcard crypto.SealedBlob)
    (tuples : Postcard (ℕ × ℕ × Bytes × Bytes)) where
  open storage use {Space}

  abbrev master : Random → Exec Space (Bytes × Bytes)
  master = get_or_create_software_master_key storage crypto blobs tuples

  -- Whatever the storage holds as the master key, if it has the size of a pair, is a pair.
  unfoldable pub MasterIsPair : Space → Type 0
  MasterIsPair s =
      (found : Option Bytes) (pair : Bytes × Bytes)
      → storage.get s software_master_key_label ≡ ok found
      → stored_pair found ≡ some pair
      → crypto.IsPair pair.0 pair.1

  -- The storage holds this pair, if it can be read.
  pub HoldsPair : Space → Bytes × Bytes → Type 0
  HoldsPair s pair =
      (found : Option Bytes)
      → storage.get s software_master_key_label ≡ ok found
      → stored_pair found ≡ some pair

  -- The pair in use is a pair, and the storage holds it.
  pub record InUse (s : Space) (pair : Bytes × Bytes) : Type 0 where
    pub is_pair : crypto.IsPair pair.0 pair.1
    pub holds : HoldsPair s pair

  use_pair-InUse :
      (random : Random) (o : Option (Bytes × Bytes)) (found : Option Bytes) (s t : Space)
      (pair : Bytes × Bytes)
      → crypto.IsPair random.keypair.0 random.keypair.1
      → MasterIsPair s
      → storage.get s software_master_key_label ≡ ok found
      → stored_pair found ≡ o
      → use_pair storage crypto blobs tuples random o s ≡ (ok pair, t)
      → InUse t pair
  unfolding MasterIsPair HoldsPair
  use_pair-InUse random (some there) found s t pair fresh m g q e =
      let same : there ≡ pair = ground arith in
      let stay : s ≡ t = ground arith in
      record {
        is_pair = m found pair g (q ∙ ap some same);
        holds = λ found' h.
            let again : found ≡ found' = ground (arith, g, h, stay) in
            subst (λ f. stored_pair f ≡ some pair) again (q ∙ ap some same);
      }
  use_pair-InUse random none found s t pair fresh m g q e =
      let bytes = random.keypair.0 ++ random.keypair.1 in
      let (u, wrote, rest) =
        writes-ok (λ s. storage.insert s software_master_key_label bytes) (pure random.keypair) s t
          pair e in
      let same : random.keypair ≡ pair = ground arith in
      let stay : u ≡ t = ground arith in
      let sizes = crypto.IsPair-length random.keypair.0 random.keypair.1 fresh in
      record {
        is_pair = subst (λ p. crypto.IsPair p.0 p.1) same fresh;
        holds = λ found' h.
            let read : found' ≡ some bytes =
              storage.get-insert_self s u software_master_key_label bytes found' wrote
                (ap (λ x. storage.get x software_master_key_label) stay ∙ h) in
            ap stored_pair read
            ∙ stored_pair-append random.keypair.0 random.keypair.1 sizes.0 sizes.1
            ∙ ap some same;
      }

  -- The pair that a call uses is one, and it is what the storage then holds.
  pub master-InUse :
      (random : Random) (s t : Space) (pair : Bytes × Bytes)
      → crypto.IsPair random.keypair.0 random.keypair.1
      → MasterIsPair s
      → master random s ≡ (ok pair, t)
      → InUse t pair
  unfolding get_or_create_software_master_key
  master-InUse random s t pair fresh m e =
      elim (Result-cases (storage.get s software_master_key_label)) [
        | inr (e', q) ↦ absurd (ground arith)
        | inl (found, q) ↦
            use_pair-InUse random (stored_pair found) found s t pair fresh m q refl (ground arith)
      ]

  -- A call finds the pair again, if it can read the storage, and writes nothing.
  pub master-again :
      (random : Random) (t : Space) (pair : Bytes × Bytes)
      → HoldsPair t pair
      → (master random t ≡ (ok pair, t)) ⊎ (is_err (master random t).0 ≡ true)
  unfolding HoldsPair get_or_create_software_master_key
  master-again random t pair holds = elim (Result-cases (storage.get t software_master_key_label)) [
    | inr (e, q) ↦ inr (rw q refl)
    | inl (found, q) ↦ let h = holds found q in inl (rw (q, h) refl)
  ]

  -- A write under another label keeps the pair.
  pub insert-HoldsPair :
      (s t : Space) (key_label bytes : Bytes) (pair : Bytes × Bytes)
      → key_label ≢ software_master_key_label
      → storage.insert s key_label bytes ≡ ok t
      → HoldsPair s pair
      → HoldsPair t pair
  unfolding HoldsPair
  insert-HoldsPair s t key_label bytes pair ne wrote holds = λ found h.
      holds found
        (sym (storage.get-insert_ne s t key_label software_master_key_label bytes ne wrote) ∙ h)
