-- ===== src/GatewayBench/Accounting.antt =====
-- scripts/gateway-bench/src/main.rs, lines 121-171: the concurrent calls against a count of the calls
-- that succeed.
use native.Mathlib.Numerals.{unary_clauses}
use native.Mathlib.Nat.{zero-mul, lt-div-mul-add, div-add-mod, mul_comm, suc-mul}
use fabric_chaincode_rs.Prelude.{
  ℕ, zero, suc, ◌+◌, ◌*◌, ◌/◌, ◌%◌, nat_eq, true, false, ◌≤◌, ◌<◌, ◌≡◌, Bool, refl, sym,
  if◌then◌else◌, arith,
}
use fabric_chaincode_rs.GatewayBench.{
  div_ceil, task_failures, usize_bound, joined_failures, failures, completed,
}

ceil-le :
    (total c : ℕ) (b : Bool)
    → 0 < c
    → nat_eq (total % c) 0 ≡ b
    → total ≤ c * (if b then total / c else total / c + 1)
ceil-le total c true h whole =
    let parts = div-add-mod total c in
    let nothing : total % c ≡ 0 = ground (arith, whole) in omega (arith, parts, nothing)
ceil-le total c false h whole =
    let above : total < total / c * c + c = lt-div-mul-add h in
    let turned : c * (total / c + 1) ≡ (total / c + 1) * c = mul_comm c (total / c + 1) in
    let step : (total / c + 1) * c ≡ total / c * c + c =
      simp unary_clauses (suc-mul (total / c) c) in
    omega (arith, above, turned, step)

div_ceil-le : (total c : ℕ) → 0 < c → total ≤ c * div_ceil total c
unfolding div_ceil
div_ceil-le total c h = ceil-le total c (nat_eq (total % c) 0) h refl

le-mul : (c p : ℕ) → 0 < c → p ≤ c * p
le-mul zero p h = omega (arith, h)
le-mul (suc c) p h = let step = suc-mul c p in omega (arith, step)

-- the calls of a task that succeed
task_successes : (ℕ → ℕ → Bool) → ℕ → ℕ → ℕ
task_successes failed t zero = 0
task_successes failed t (suc n) =
    let before = task_successes failed t n in if failed t n then before else before + 1

-- the calls that succeed in the tasks that do not panic
unfoldable pub successes : (ℕ → ℕ → Bool) → (ℕ → Bool) → ℕ → ℕ → ℕ
unfolding task_successes
successes failed joined per_task zero = 0
successes failed joined per_task (suc t) =
    let before = successes failed joined per_task t in
    if joined t then before + task_successes failed t per_task else before

module _ (failed : ℕ → ℕ → Bool) (joined : ℕ → Bool) where
  task_failures-successes :
      (t n : ℕ) → n < usize_bound → task_successes failed t n + task_failures failed joined t n ≡ n
  unfolding task_failures task_successes
  task_failures-successes t zero h = refl
  task_failures-successes t (suc n) h = ground (arith, h, task_failures-successes t n)

  failures-successes :
      (per_task n : ℕ)
      → per_task < usize_bound
      → n * per_task < usize_bound
      → successes failed joined per_task n + failures failed joined per_task n ≡ n * per_task
  unfolding failures joined_failures successes
  failures-successes per_task zero one h = sym (zero-mul per_task)
  failures-successes per_task (suc n) one h =
      let product = suc-mul n per_task in
      let rest = failures-successes per_task n one (omega (arith, h, product)) in
      let last = task_failures-successes n per_task one in ground (arith, h, rest, last, product)

  -- With one task at least, where the number of all calls is below 2^64: at least as many calls are
  -- made as were asked for, and the calls counted as completed are those that succeed in the tasks that
  -- do not panic.
  pub completed-successes :
      (total concurrency : ℕ)
      → 0 < concurrency
      → concurrency * div_ceil total concurrency < usize_bound
      → (total ≤ concurrency * div_ceil total concurrency)
        × (completed failed joined total concurrency
            ≡ successes failed joined (div_ceil total concurrency) concurrency)
  unfolding completed
  completed-successes total concurrency h fits =
      let per_task = div_ceil total concurrency in
      let one : per_task < usize_bound = omega (arith, fits, le-mul concurrency per_task h) in
      let all = failures-successes per_task concurrency one fits in
      (div_ceil-le total concurrency h, omega (arith, all, fits))
