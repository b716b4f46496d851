-- ===== src/Control/Runtime/Tests.antt =====
-- The client on inputs like those of runtime-client.test.ts, and its theorems there.
use wind_solar_ess_agent.Base.{◌≡◌, refl, some}
use wind_solar_ess_agent.Js.Text.{codes, trim, trim_start, trim_end, is_space}
use wind_solar_ess_agent.Js.Json.{Fields, null, num, str, arr, obj, nil, cons, end, field, get}
use wind_solar_ess_agent.Control.Runtime.{RunStatus, number, from_grpc_run_status, struct_to_object}
use wind_solar_ess_agent.Control.Runtime.Messages.{to_number}
use wind_solar_ess_agent.Control.Runtime.Values.{to_struct, struct_to_object-to_struct}

unknown_status_fails : from_grpc_run_status (number 9) ≡ RunStatus.failed
unfolding from_grpc_run_status
unknown_status_fails = refl

sequence_of_id : to_number (codes " 12 ") ≡ some 12
unfolding to_number trim trim_start trim_end is_space
sequence_of_id = refl

plain_object_kept :
    struct_to_object (obj (field "event_type" (str (codes "RunStop")) end))
    ≡ obj (field "event_type" (str (codes "RunStop")) end)
unfolding struct_to_object get
plain_object_kept = refl

-- A payload with a list and an object in it.
abbrev payload : Fields
payload = field "event_type" (str (codes "tool.completed")) (
    field "values" (arr (cons (num 1) (cons null nil)))
      (field "nested" (obj (field "ok" (num 1) end)) end))

struct_to_object-to_struct_example : struct_to_object (to_struct payload) ≡ obj payload
struct_to_object-to_struct_example = struct_to_object-to_struct payload
