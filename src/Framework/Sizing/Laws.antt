-- ===== src/Framework/Sizing/Laws.antt =====
-- Bounds of the buffer's size, and what the budget refuses.
use myworktree.Prelude.{ℕ, ◌+◌, ◌/◌, ◌*◌, ◌≤◌, ◌<◌, ◌≡◌, ◌↔◌, Option, some, ℤ, arith, ◌^◌}
use myworktree.Framework.Sizing.{
  Sample, MemStat, granted, exceeded, adaptive_cap, resolve_cap, min_buffer_cap, max_buffer_cap,
}

-- Whatever the configuration and the sampler say, a size lies between the two bounds.
pub adaptive_cap_bounds :
    (cfg : ℤ) (sampler : Option Sample)
    → (min_buffer_cap ≤ adaptive_cap cfg sampler) × (adaptive_cap cfg sampler ≤ max_buffer_cap)
unfolding adaptive_cap
adaptive_cap_bounds cfg sampler = ground arith

module _ (float64 : ℕ → ℕ) (exact : (n : ℕ) → n ≤ 2 ^ 53 → float64 n ≡ n) where
  -- With a sampler that reports a machine of at most 2^53 bytes: a granted size keeps all buffers
  -- within a quarter of its memory, and it is refused exactly when it would not.
  pub resolve_cap_budget :
      (cfg : ℤ) (vm : MemStat) (total_buf : ℕ)
      → 0 < vm.total
      → vm.total ≤ 2 ^ 53
      → let cap = adaptive_cap cfg (some (some vm)) in
        ((resolve_cap float64 cfg (some (some vm)) total_buf ≡ granted cap)
          ↔ (4 * (total_buf + cap) ≤ vm.total))
        × ((resolve_cap float64 cfg (some (some vm)) total_buf
              ≡ exceeded (record {
                used_bytes = total_buf;
                limit_bytes = vm.total / 4;
                system_bytes = vm.total;
              }))
            ↔ (vm.total < 4 * (total_buf + cap)))
  unfolding resolve_cap
  resolve_cap_budget cfg vm total_buf pos_total small = ground (arith, exact vm.total)
