-- ===== src/Stream/Timing.antt =====
-- internal/stream/manager.go: how long a download may take before a second one is started. Times are nanoseconds.
use baidu_disk_link.Common.{
  ℕ, zero, suc, ◌+◌, ◌-◌, ◌*◌, ◌/◌, ◌%◌, ◌≤◌, ◌≡◌, refl, List, [], ◌∷◌, ◌++◌, length, ltb, leb,
  ◌==◌, if◌then◌else◌, arith, length-append,
}
use baidu_disk_link.Stream.Config.{Config}

-- the samples and `latencyNext`
pub record Latencies : Type 0 where
  pub samples : List ℕ
  pub next : ℕ

abbrev pub no_latencies : Latencies
no_latencies = record { samples = []; next = 0 }

unfoldable pub set_at : ℕ → ℕ → List ℕ → List ℕ
set_at i x [] = []
set_at zero x (y ∷ l) = x ∷ l
set_at (suc i) x (y ∷ l) = y ∷ set_at i x l

-- recordLatencyLocked
unfoldable pub record_latency : ℕ → Latencies → Latencies
unfolding set_at
record_latency latency s =
    if latency == 0
    then s
    else if ltb (length s.samples) 32
    then record s { samples = s.samples ++ latency ∷ [] }
    else record s { samples = set_at (s.next % 32) latency s.samples; next = s.next + 1 }

unfoldable pub insert_sorted : ℕ → List ℕ → List ℕ
insert_sorted x [] = x ∷ []
insert_sorted x (y ∷ l) = if leb x y then x ∷ y ∷ l else y ∷ insert_sorted x l

unfoldable pub sort : List ℕ → List ℕ
unfolding insert_sorted
sort [] = []
sort (x ∷ l) = insert_sorted x (sort l)

unfoldable pub sample_at : ℕ → List ℕ → ℕ
sample_at i [] = 0
sample_at zero (x ∷ l) = x
sample_at (suc i) (x ∷ l) = sample_at i l

-- the sample that 95 of 100 do not exceed
unfoldable pub p95 : List ℕ → ℕ
unfolding sort sample_at
p95 samples = sample_at ((length samples * 95 - 1) / 100) (sort samples)

abbrev pub within_limits : Config → ℕ → ℕ
within_limits cfg delay =
    if ltb delay cfg.hedge_min_delay
    then cfg.hedge_min_delay
    else if ltb cfg.hedge_max_delay delay
    then cfg.hedge_max_delay
    else delay

unfoldable pub hedge_delay : Config → List ℕ → ℕ
unfolding p95
hedge_delay cfg [] = cfg.hedge_min_delay
hedge_delay cfg (x ∷ l) = let sample = p95 (x ∷ l) in within_limits cfg (sample + sample / 2)

unfoldable pub record_all : List ℕ → Latencies → Latencies
unfolding record_latency
record_all [] s = s
record_all (latency ∷ more) s = record_all more (record_latency latency s)

length-set_at : (i x : ℕ) (l : List ℕ) → length (set_at i x l) ≡ length l
unfolding set_at
length-set_at i x [] = refl
length-set_at zero x (y ∷ l) = refl
length-set_at (suc i) x (y ∷ l) = ground (arith, length-set_at i x l)

record_latency-bound :
    (latency : ℕ) (s : Latencies)
    → length s.samples ≤ 32
    → length (record_latency latency s).samples ≤ 32
unfolding record_latency
record_latency-bound latency s h =
    ground
      (arith, length-append s.samples (latency ∷ []), length-set_at (s.next % 32) latency s.samples)

record_all-bound_from :
    (l : List ℕ) (s : Latencies) → length s.samples ≤ 32 → length (record_all l s).samples ≤ 32
unfolding record_all
record_all-bound_from [] s h = h
record_all-bound_from (latency ∷ more) s h =
    record_all-bound_from more (record_latency latency s) (record_latency-bound latency s h)

-- However many latencies are recorded, no more than 32 are kept.
pub record_all-bound : (l : List ℕ) → length (record_all l no_latencies).samples ≤ 32
record_all-bound l = record_all-bound_from l no_latencies (omega arith)

-- The delay lies between the two limits of the configuration, when the lower one does not exceed the upper one.
pub hedge_delay-bound :
    (cfg : Config) (samples : List ℕ)
    → cfg.hedge_min_delay ≤ cfg.hedge_max_delay
    → (cfg.hedge_min_delay ≤ hedge_delay cfg samples)
      × (hedge_delay cfg samples ≤ cfg.hedge_max_delay)
unfolding hedge_delay
hedge_delay-bound cfg [] h = ground arith
hedge_delay-bound cfg (x ∷ l) h = ground arith
