-- ===== src/Blob.antt =====
-- The in-memory object store (apps/api/internal/blob/memory.go). A value is a copy of the caller's
-- bytes in both directions, so no caller shares it. The S3 implementation only calls the AWS SDK.
use wreckr.Prelude.{
  arith, String, ◌+++◌, ◌==◌, ◌≡◌, Option, none, some, Dict, lookup, insert, erase, lookup-insert,
  lookup-erase, if◌then◌else◌,
}

abbrev pub Blob : Type 0
Blob = Dict String

pub data GetResult : Type 0 where
  ok : String → GetResult
  not_found : String → GetResult

unfoldable pub put : String → String → Blob → Blob
put key bytes store = insert key bytes store

or_missing : String → Option String → GetResult
or_missing key none = not_found ("key not found: " +++ key)
or_missing key (some bytes) = ok bytes

unfoldable pub get : String → Blob → GetResult
unfolding or_missing
get key store = or_missing key (lookup key store)

unfoldable pub delete : String → Blob → Blob
delete key store = erase key store

-- A read gives the bytes of the last write to its key, and an error after a deletion; writes and
-- deletions of other keys do not change it.
pub get_lem :
    (k j bytes : String) (store : Blob)
    → (get j (put k bytes store) ≡ (if k == j then ok bytes else get j store))
      × (get j (delete k store)
          ≡ (if k == j then not_found ("key not found: " +++ j) else get j store))
unfolding get put delete
get_lem k j bytes store = (rw lookup-insert (ground arith), rw lookup-erase (ground arith))
