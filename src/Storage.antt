-- ===== src/Storage.antt =====
-- src/storage.rs: a keyspace of the fjall database, as the agent uses it. The database itself is a
-- dependency, so its state and its two operations are parameters: either may fail, a write that
-- succeeds is what a later read returns, and it changes the entry of no other key.
use fleetos_agent.Prelude.{◌≡◌, ◌≢◌, Option, some, List, arith, Bytes}
use fleetos_agent.Errors.{Result, ok}
use fleetos_agent.Collections.Key.{bytes_key, same_bytes_iff}
use fleetos_agent.Collections.HashMap.{lookup, insert, lookup-insert}

pub record Keyspace : Type 1 where
  pub Space : Type 0
  pub get : Space → Bytes → Result (Option Bytes)
  pub insert : Space → Bytes → Bytes → Result Space
  pub get-insert_self :
      (s t : Space) (key value : Bytes) (found : Option Bytes)
      → insert s key value ≡ ok t
      → get t key ≡ ok found
      → found ≡ some value
  pub get-insert_ne :
      (s t : Space) (key other value : Bytes)
      → key ≢ other
      → insert s key value ≡ ok t
      → get t other ≡ get s other

-- A keyspace held in memory, which never fails.
abbrev pub memory_get : List (Bytes × Bytes) → Bytes → Result (Option Bytes)
memory_get s key = ok (lookup key s)

abbrev pub memory_insert : List (Bytes × Bytes) → Bytes → Bytes → Result (List (Bytes × Bytes))
memory_insert s key value = ok (insert key value s)

pub memory_get-insert_self :
    (s t : List (Bytes × Bytes)) (key value : Bytes) (found : Option Bytes)
    → memory_insert s key value ≡ ok t
    → memory_get t key ≡ ok found
    → found ≡ some value
memory_get-insert_self s t key value found e f =
    ground (arith, lookup-insert key key value s, same_bytes_iff key key)

pub memory_get-insert_ne :
    (s t : List (Bytes × Bytes)) (key other value : Bytes)
    → key ≢ other
    → memory_insert s key value ≡ ok t
    → memory_get t other ≡ memory_get s other
memory_get-insert_ne s t key other value ne e =
    ground (arith, lookup-insert key other value s, same_bytes_iff key other)

abbrev pub memory : Keyspace
memory = record {
  Space = List (Bytes × Bytes);
  get = memory_get;
  insert = memory_insert;
  get-insert_self = memory_get-insert_self;
  get-insert_ne = memory_get-insert_ne;
}
