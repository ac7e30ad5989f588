-- ===== src/Examples/Gateway.antt =====
-- The benchmark's count, for seven calls by three tasks of which one panics, and two of its ids.
use fabric_chaincode_rs.Prelude.{ℕ, ◌≡◌, ◌≢◌, str, ◌≤◌, ◌*◌, Bool, true, false, arith, zero, suc}
use fabric_chaincode_rs.GatewayBench.{div_ceil, completed}
use fabric_chaincode_rs.GatewayBench.Calls.{concurrent, asset_id, asset_id-ne}
use fabric_chaincode_rs.GatewayBench.Accounting.{successes, completed-successes}

-- every task's first call fails
abbrev first_fails : ℕ → ℕ → Bool
first_fails t zero = true
first_fails t (suc i) = false

-- the second task panics
abbrev joins : ℕ → Bool
joins zero = true
joins (suc zero) = false
joins (suc (suc t)) = true

completed-successes_example :
    (7 ≤ 3 * div_ceil 7 3)
    × (completed first_fails joins 7 3 ≡ successes first_fails joins (div_ceil 7 3) 3)
completed-successes_example =
    completed-successes first_fails joins 7 3 (omega arith) (unfold div_ceil in omega arith)

different : concurrent 1 23 ≢ concurrent 12 3
different = λ e. cc e

asset_id-ne_example :
    asset_id (str "gwbench") (str "assets") (concurrent 1 23)
    ≢ asset_id (str "gwbench") (str "assets") (concurrent 12 3)
asset_id-ne_example =
    asset_id-ne (str "gwbench") (str "assets") (concurrent 1 23) (concurrent 12 3) different
