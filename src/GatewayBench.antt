-- ===== src/GatewayBench.antt =====
-- scripts/gateway-bench/src/main.rs, lines 121-171: the concurrent part of the benchmark, its division
-- of the calls among the tasks and its count of failures, which the query and the invoke share.
--
-- `failed t i` says that the call `i` of the task `t` failed, `joined t` that the task did not panic.
-- The clock and the rates, which are floating-point numbers, are left out.
pub mod Accounting
pub mod Calls
use fabric_chaincode_rs.Prelude.{ℕ, zero, suc, ◌+◌, ◌-◌, ◌*◌, ◌/◌, ◌%◌, nat_eq, Bool, if◌then◌else◌}

-- A `usize` of 64 bits wraps around, as in a release build.
abbrev pub usize_bound : ℕ
usize_bound = 18446744073709551616

-- `usize::div_ceil`, of a divisor that is not 0; its result is at most `total`, so it cannot overflow
unfoldable pub div_ceil : ℕ → ℕ → ℕ
div_ceil total concurrency =
    if nat_eq (total % concurrency) 0 then total / concurrency else total / concurrency + 1

module _ (failed : ℕ → ℕ → Bool) (joined : ℕ → Bool) where
  -- the loop of one task over its calls, the last one first
  unfoldable pub task_failures : ℕ → ℕ → ℕ
  task_failures t zero = 0
  task_failures t (suc n) =
      let before = task_failures t n in if failed t n then (before + 1) % usize_bound else before

  -- `h.await.unwrap_or(per_task)`
  unfoldable pub joined_failures : ℕ → ℕ → ℕ
  unfolding task_failures
  joined_failures per_task t = if joined t then task_failures t per_task else per_task

  unfoldable pub failures : ℕ → ℕ → ℕ
  unfolding joined_failures
  failures per_task zero = 0
  failures per_task (suc t) = (failures per_task t + joined_failures per_task t) % usize_bound

  -- `concurrency * per_task - failures`
  unfoldable pub completed : ℕ → ℕ → ℕ
  unfolding failures div_ceil
  completed total concurrency =
      let per_task = div_ceil total concurrency in
      (concurrency * per_task % usize_bound + (usize_bound - failures per_task concurrency))
      % usize_bound
