-- ===== src/Validator/Examples.antt =====
-- Specs that are valid, and some that are not.
use maman_agent.Prelude.{◌≡◌, ◌≤◌, refl, [], ◌∷◌, none, some, true, false, Memᴰ, arith, ◌+◌, ◌-◌}
use maman_agent.Contracts.{AgentStep, schedule, step_output, high}
use maman_agent.Samples.{reconcile, read_step, propose_step, write_step}
use maman_agent.Catalog.{capabilities, get_capability}
use maman_agent.Validator.Secrets.{looks_like_secret, is_url, looks_like_code}
use maman_agent.Validator.Cron.{min_cron_interval_minutes, list_interval, list_interval-le}
use maman_agent.Validator.Check.{
  success, valid, invalid, validate_agent_spec, spec_issues, v_ref_3, v_sched_1, v_risk_2,
}
use maman_agent.Validator.Laws.{IsSound, validate_agent_spec-IsSound}
use maman_agent.Validator.RunOrder.{in_order-produced}

reconcile-valid : validate_agent_spec (success reconcile) ≡ valid reconcile
unfolding validate_agent_spec spec_issues get_capability capabilities
reconcile-valid = refl

validate_agent_spec-IsSound_example : (success reconcile ≡ success reconcile) × IsSound reconcile
validate_agent_spec-IsSound_example =
    validate_agent_spec-IsSound (success reconcile) reconcile reconcile-valid

in_order-produced_example : (p : AgentStep) × Memᴰ p (read_step ∷ []) × (p.output_key ≡ "rows")
in_order-produced_example =
    in_order-produced (success reconcile) reconcile (read_step ∷ []) (write_step ∷ []) propose_step
      "rows" "rows" reconcile-valid refl (Memᴰ.head refl)

-- A later output, a missing approval, and a schedule that is too frequent.
rejected :
    (validate_agent_spec (
        success (record reconcile {
          steps =
              (record read_step { inputs = ("file", step_output "rows") ∷ []; risk_level = high })
              ∷ [];
          trigger = schedule "*/10 * * * *" "UTC";
        }))
      ≡ invalid (v_ref_3 "s1" "rows" ∷ v_risk_2 "s1" ∷ v_sched_1 10 ∷ []))
unfolding validate_agent_spec spec_issues get_capability capabilities min_cron_interval_minutes
    list_interval
rejected = refl

-- The intervals of expressions; the first one runs at minute 50 and at minute 0 of the next hour.
intervals :
    (min_cron_interval_minutes "*/50 * * * *" ≡ some 50)
    × (min_cron_interval_minutes " 5,50  * * * * " ≡ some 15)
    × (min_cron_interval_minutes "7 * * * *" ≡ some 60)
    × (min_cron_interval_minutes "* * * *" ≡ none)
    × (min_cron_interval_minutes "1-5 * * * *" ≡ none)
unfolding min_cron_interval_minutes list_interval
intervals = (refl, refl, refl, refl, refl)

list_interval-fifteen : list_interval (50 ∷ 5 ∷ []) ≡ some 15
unfolding list_interval
list_interval-fifteen = refl

list_interval-le_example : (5 + 15 ≤ 50) × (15 ≤ 60 + 5 - 50)
list_interval-le_example =
    list_interval-le (50 ∷ 5 ∷ []) 5 50 15 list_interval-fifteen (Memᴰ.tail (Memᴰ.head refl))
      (Memᴰ.head refl) (omega arith)

shapes :
    (looks_like_secret "key AKIA0123456789ABCDEF." ≡ true)
    × (looks_like_secret "keyAKIA0123456789ABCDEF" ≡ false)
    × (looks_like_secret "API-Key = x" ≡ true)
    × (looks_like_secret "sk-short" ≡ false)
    × (looks_like_code "Drop  Table users" ≡ true)
    × (looks_like_code "dropped tables" ≡ false)
    × (is_url "HTTPS://a.example" ≡ true)
unfolding looks_like_secret looks_like_code is_url
shapes = (refl, refl, refl, refl, refl, refl, refl)
