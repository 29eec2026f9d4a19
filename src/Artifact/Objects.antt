-- ===== src/Artifact/Objects.antt =====
-- internal/artifact/store.go: the interface of the object stores, and the one that is kept in
-- memory.
use lecrev.Prelude.{String, Option, none, some, ◌≡◌, arith, if◌then◌else◌, str_eq}
use lecrev.Maps.{Assoc, get, put, get-put}
use lecrev.Errors.{Result, Exec, ok, err, object_not_found}
use lecrev.Domain.{Bytes}

pub record ObjectStore (S : Type 0) : Type 0 where
  pub put_object : String → Bytes → Exec S (Unit {0})
  pub get_object : String → Exec S Bytes

abbrev pub MemoryStore : Type 0
MemoryStore = Assoc Bytes

unfoldable pub memory_put : String → Bytes → Exec MemoryStore (Unit {0})
memory_put key bytes m = (ok tt, put m key bytes)

abbrev pub object_found : String → Option Bytes → Result Bytes
object_found key none = err (object_not_found key)
object_found key (some bytes) = ok bytes

unfoldable pub memory_get : String → Exec MemoryStore Bytes
memory_get key m = (object_found key (get m key), m)

abbrev pub memory_objects : ObjectStore MemoryStore
memory_objects = record { put_object = memory_put; get_object = memory_get }

-- What is read is what was put last under the key.
memory_get-put :
    (key other : String) (bytes : Bytes) (m : MemoryStore)
    → (memory_get other (memory_put key bytes m).1).0
      ≡ (if str_eq key other then ok bytes else (memory_get other m).0)
unfolding memory_get memory_put
memory_get-put key other bytes m = ground (arith, get-put m key other bytes)
