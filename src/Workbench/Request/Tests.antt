-- ===== src/Workbench/Request/Tests.antt =====
-- The request of a message about a selected container, and its theorem there.
use wind_solar_ess_agent.Base.{◌≡◌, refl, none, some, [], arith}
use wind_solar_ess_agent.Js.Text.{codes, trim, trim_start, is_space}
use wind_solar_ess_agent.Control.Contracts.{parse_turn_input}
use wind_solar_ess_agent.Workbench.Request.{DeviceContext, build_agent_request}
use wind_solar_ess_agent.Workbench.Request.Accepted.{build_agent_request-parsed}

abbrev container : DeviceContext
container = record {
  id = some (codes "A-01");
  station_device_id = some (codes "bess-01");
  updated_at = none;
}

build_agent_request-parsed_example :
    let request =
      build_agent_request
        (λ t. t)
        (λ t. [])
        (codes " soc? ")
        (codes "st")
        (some container)
        2
        (codes "24h") in
    parse_turn_input request ≡ some (record request { text = codes "soc?" })
unfolding trim trim_start is_space
build_agent_request-parsed_example =
    build_agent_request-parsed (λ t. t) (λ t. []) (codes " soc? ") (codes "st") (some container) 2
      (codes "24h") (omega arith) (omega arith) refl
