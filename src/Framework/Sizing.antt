-- ===== src/Framework/Sizing.antt =====
-- internal/framework/memsampler.go: the size of an instance's buffer, and the global budget.
pub mod Laws
use myworktree.Prelude.{
  ℕ, ◌+◌, ◌-◌, ◌/◌, ◌*◌, Bool, true, false, Option, none, some, ltb, ◌==◌, if◌then◌else◌, ℤ, pos,
  negsuc, pos_part,
}

abbrev pub default_buffer_cap : ℕ
default_buffer_cap = 33554432

abbrev pub min_buffer_cap : ℕ
min_buffer_cap = 16777216

abbrev pub max_buffer_cap : ℕ
max_buffer_cap = 268435456

-- Sizes that gopsutil reports are unsigned, and below 2^63 on any machine.
pub record MemStat : Type 0 where
  pub total : ℕ
  pub available : ℕ
  pub used : ℕ

-- A sampler's answer; `none` is an error.
abbrev pub Sample : Type 0
Sample = Option MemStat

pub record BudgetError : Type 0 where
  pub used_bytes : ℕ
  pub limit_bytes : ℕ
  pub system_bytes : ℕ

pub data CapResult : Type 0 where
  granted : ℕ → CapResult
  exceeded : BudgetError → CapResult

unfoldable pub clamp_cap : ℕ → ℕ
clamp_cap v =
    if ltb v min_buffer_cap
    then min_buffer_cap
    else if ltb max_buffer_cap v
    then max_buffer_cap
    else v

-- the memory that counts as available: `vm.Available`, or what is not used
available_of : MemStat → ℕ
available_of vm = if vm.available == 0 then vm.total - vm.used else vm.available

adaptive_of : Sample → ℕ
unfolding available_of clamp_cap
adaptive_of none = default_buffer_cap
adaptive_of (some vm) =
    if available_of vm == 0 then default_buffer_cap else clamp_cap (available_of vm / 16)

-- `AdaptiveCap`; a sampler of `none` is Go's nil
unfoldable pub adaptive_cap : ℤ → Option Sample → ℕ
unfolding adaptive_of clamp_cap
adaptive_cap cfg sampler =
    if ltb 0 (pos_part cfg)
    then clamp_cap (pos_part cfg)
    else elim sampler [ none ↦ default_buffer_cap | some vm ↦ adaptive_of vm ]

-- `float64` is the value of Go's conversion of a size to a float, which is a whole number; a
-- quarter of it is exact, and `int64` truncates.
module _ (float64 : ℕ → ℕ) where
  check_budget : ℕ → ℕ → MemStat → CapResult
  check_budget cap total_buf vm =
      let limit = float64 vm.total / 4 in
      if ltb 0 vm.total
      then (if ltb limit (total_buf + cap)
          then exceeded
              (record { used_bytes = total_buf; limit_bytes = limit; system_bytes = vm.total })
          else granted cap)
      else granted cap

  budgeted : ℕ → ℕ → Option Sample → CapResult
  budgeted cap total_buf (some (some vm)) = check_budget cap total_buf vm
  budgeted cap total_buf _ = granted cap

  unfoldable pub resolve_cap : ℤ → Option Sample → ℕ → CapResult
  unfolding budgeted check_budget
  resolve_cap cfg sampler total_buf = budgeted (adaptive_cap cfg sampler) total_buf sampler
