-- ===== src/Latency.antt =====
-- `LatencyStats` of src/core/types.hpp: the count, the sum, the extremes and the percentiles of the
-- samples recorded.
use orderflow_replay_engine.Prelude.{
  ℕ, zero, suc, ◌*◌, ◌/◌, List, [], ◌∷◌, ◌++◌, ℤ, pos, ◌+ℤ◌, ltb_ℤ, if◌then◌else◌, ◌==◌, length,
}
use orderflow_replay_engine.Double.{Double, nought}

pub record LatencyStats : Type 0 where
  pub count : ℕ
  pub sum_ns : ℤ
  pub min_ns : ℤ
  pub max_ns : ℤ
  pub p50_ns : ℤ
  pub p99_ns : ℤ
  pub samples : List ℤ

-- `INT64_MAX`
abbrev int64_max : ℤ
int64_max = pos 9223372036854775807

abbrev pub new_latency : LatencyStats
new_latency = record {
  count = 0;
  sum_ns = pos 0;
  min_ns = int64_max;
  max_ns = pos 0;
  p50_ns = pos 0;
  p99_ns = pos 0;
  samples = [];
}

-- `LatencyStats::record`
unfoldable pub record_ns : ℤ → LatencyStats → LatencyStats
record_ns ns l = record l {
  count = suc l.count;
  sum_ns = l.sum_ns +ℤ ns;
  min_ns = if ltb_ℤ ns l.min_ns then ns else l.min_ns;
  max_ns = if ltb_ℤ l.max_ns ns then ns else l.max_ns;
  samples = l.samples ++ ns ∷ [];
}

abbrev at : List ℤ → ℕ → ℤ
at [] i = pos 0
at (x ∷ xs) zero = x
at (x ∷ xs) (suc i) = at xs i

-- `sort` is `std::sort`.
unfoldable pub compute_percentiles : (List ℤ → List ℤ) → LatencyStats → LatencyStats
compute_percentiles sort l = elim l.samples [
  | [] ↦ l
  | x ∷ xs ↦
      let sorted = sort l.samples in
      record l {
        p50_ns = at sorted (length sorted * 50 / 100);
        p99_ns = at sorted (length sorted * 99 / 100);
      }
]

-- `LatencyStats::avg_us`
unfoldable pub avg_us {ℓ} : {W : Type ℓ} ⦃d : Double W⦄ → LatencyStats → W
avg_us ⦃d⦄ l =
    if l.count == 0
    then nought
    else d.div (d.div (d.of_int l.sum_ns) (d.of_int (pos l.count))) (d.lit (pos 1000) 1)
