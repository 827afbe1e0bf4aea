-- ===== src/NegativeCache.antt =====
-- internal/cache/negative.go: the paths that were missing a short while ago. The clock is an argument.
use baidu_disk_link.Common.{
  ℕ, ◌+◌, ◌-◌, ◌≤◌, ◌≡◌, ◌≢◌, ◌↔◌, Bool, true, false, none, some, List, ltb, if◌then◌else◌, arith,
  inl, inr, Option-cases,
}
use baidu_disk_link.Common.Maps.{lookup, without, insert, lookup-insert, lookup-without}
use baidu_disk_link.ChunkStore.Types.{Bytes, Bytes-discrete}

pub record NegativeCache : Type 0 where
  pub ttl : ℕ
  pub entries : List (Bytes × ℕ)

unfoldable pub mark_missing : Bytes → ℕ → NegativeCache → NegativeCache
mark_missing path now c = record c { entries = insert Bytes-discrete path now c.entries }

-- an entry that has outlived its time is dropped when it is asked for
unfoldable pub is_missing : Bytes → ℕ → NegativeCache → NegativeCache × Bool
is_missing path now c = elim (lookup Bytes-discrete path c.entries) [
  | none ↦ (c, false)
  | some marked ↦
      if ltb c.ttl (now - marked)
      then (record c { entries = without Bytes-discrete path c.entries }, false)
      else (c, true)
]

-- At any moment from the mark on, a path that was marked as missing is reported as missing exactly
-- while no more than the time to live has passed.
pub is_missing-mark_missing :
    (path : Bytes) (marked now : ℕ) (c : NegativeCache)
    → marked ≤ now
    → ((is_missing path now (mark_missing path marked c)).1 ≡ true) ↔ (now ≤ marked + c.ttl)
unfolding is_missing mark_missing
is_missing-mark_missing path marked now c later =
    ground (arith, lookup-insert Bytes-discrete path path marked c.entries)

-- A question about one path changes no answer about another, whenever it is asked.
pub is_missing-is_missing :
    (path other : Bytes) (now later : ℕ) (c : NegativeCache)
    → other ≢ path
    → (is_missing other later (is_missing path now c).0).1 ≡ (is_missing other later c).1
unfolding is_missing
is_missing-is_missing path other now later c apart =
    elim (Option-cases (lookup Bytes-discrete path c.entries)) [
      | inl e ↦ ground (arith, e)
      | inr (marked, e) ↦
          ground (arith, e, lookup-without Bytes-discrete other path c.entries, apart)
    ]
