-- ===== src/Sidecar/Tests.antt =====
-- The calls to the sidecar at concrete events.
use whatsrust.Prelude.{List, [], ◌∷◌, arith, inl, inr, refl}
use whatsrust.Sidecar.{
  wire_result, response, unroutable, Event, call, line, write_failed, timeout, new, run, Shared,
  call_rpc, register, insert, cancel, cancel_found, lookup, delete, deliver, deliver_found,
  mark_dead, mark_when, fail_all, read_line, step, ModelInfo, EmbedWire,
}
use whatsrust.Sidecar.Routing.{IsSane}
use whatsrust.Sidecar.Routing.Runs.{run-calls_once, Got, Came, run-routes}

abbrev some_events : List Event
some_events =
    call "embed"
    ∷ call "health"
    ∷ timeout 1
    ∷ line (response 1 (wire_result "late"))
    ∷ line unroutable
    ∷ line (response 2 (wire_result "ok"))
    ∷ call "embed"
    ∷ write_failed "broken pipe"
    ∷ call "embed"
    ∷ []

run-calls_once_example : IsSane (run some_events new)
run-calls_once_example = run-calls_once some_events (omega arith)

health_is_answered : Got 2 (wire_result "ok") (Shared.answers (run some_events new))
unfolding run step call_rpc register insert cancel cancel_found lookup delete read_line deliver
    deliver_found mark_dead mark_when fail_all
health_is_answered = inr (inr (inl refl))

run-routes_example : Came 2 (wire_result "ok") some_events
run-routes_example = run-routes some_events 2 (wire_result "ok") health_is_answered

abbrev model : ModelInfo
model = record { model_id = "m"; dim = 2 }

abbrev good_response : EmbedWire
good_response = record { wire_model_id = "m"; wire_dim = 2; vectors = (1 ∷ 2 ∷ []) ∷ [] }
