-- ===== src/ChunkStore/Types.antt =====
-- internal/stream/store.go: the files, chunk keys and cached bytes that the stream engine names.
-- Text is a list of byte codes; sizes, times and indices are natural numbers.
use baidu_disk_link.Common.{ℕ, List, ℕ_discrete}

-- A text or a block of bytes.
abbrev pub Bytes : Type 0
Bytes = List ℕ

pub record File : Type 0 where
  pub fsid : Bytes
  pub size : ℕ
  pub mtm : ℕ

pub record ChunkKey : Type 0 where
  pub version : Bytes
  pub index : ℕ

unfoldable pub Bytes-discrete : Discrete Bytes
unfolding ℕ_discrete
Bytes-discrete = hlevel ℕ_discrete

unfoldable pub ChunkKey-discrete : Discrete ChunkKey
unfolding ℕ_discrete
ChunkKey-discrete = hlevel ℕ_discrete
