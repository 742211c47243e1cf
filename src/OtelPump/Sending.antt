-- ===== src/OtelPump/Sending.antt =====
-- cmd/otelpump/otelpump.go: what the loop over the groups hands to the exporter. The outcome of an
-- export is logged only.
use i_drac_telemetry_referen.Common.{Option, some, List, [], ◌∷◌, ◌++◌, String, if◌then◌else◌}
use i_drac_telemetry_referen.Common.Dict.{Dict}
use i_drac_telemetry_referen.Common.Int.{ℤ}
use i_drac_telemetry_referen.Common.Text.{◌==◌}
use i_drac_telemetry_referen.Databus.Group.{DataGroup, DataValue, EventValue}
use i_drac_telemetry_referen.Json.{JsonText}
use i_drac_telemetry_referen.Json.Structs.{◌>>=◌}
use i_drac_telemetry_referen.OtelPump.{Readings, OtelMeta, or_empty}
use i_drac_telemetry_referen.OtelPump.Metrics.{
  MapOrder, ResourceMetrics, ScopeMetrics, to_otlp_metrics,
}
use i_drac_telemetry_referen.OtelPump.Logs.{ResourceLogs, ScopeLogs, to_otlp_logs}

module _ (readings : Readings) (json : JsonText) where
  pub data Export : Type 0 where
    metrics : ResourceMetrics readings → Export
    logs : ResourceLogs readings json → Export

  abbrev pub metrics_if_any : ResourceMetrics readings → List (ScopeMetrics readings) → List Export
  metrics_if_any rm [] = []
  metrics_if_any rm (_ ∷ _) = metrics rm ∷ []

  abbrev logs_if_any : ResourceLogs readings json → List (ScopeLogs readings json) → List Export
  logs_if_any rl [] = []
  logs_if_any rl (_ ∷ _) = logs rl ∷ []

  abbrev pub exported_metrics : ResourceMetrics readings → List Export
  exported_metrics rm = metrics_if_any rm rm.scope_metrics

  abbrev exported_logs : ResourceLogs readings json → List Export
  exported_logs rl = logs_if_any rl rl.scope_logs

  module _ (print_int : ℤ → String) (metas : Dict OtelMeta) where
    abbrev convert_events : DataGroup → List EventValue → Option (List Export)
    convert_events group [] = some []
    convert_events group (_ ∷ _) = some (exported_logs (to_otlp_logs readings json group))

    abbrev pub convert : MapOrder → DataGroup → List DataValue → Option (List Export)
    convert order group [] = convert_events group (or_empty group.events)
    convert order group (_ ∷ _) =
        to_otlp_metrics readings print_int order metas group >>= λ rm. some (exported_metrics rm)

    -- One group: what is exported, or a panic
    unfoldable pub convert_and_send : MapOrder → DataGroup → Option (List Export)
    unfolding to_otlp_metrics to_otlp_logs
    convert_and_send order group =
        if group.id == "MemoryMetrics" then some [] else convert order group (or_empty group.values)

    -- The loop of `convertAndSendOtelMetrics` over the groups that come in, each with the orders of
    -- the maps in its turn
    unfoldable pub convert_and_send_all : List (MapOrder × DataGroup) → Option (List Export)
    unfolding convert_and_send
    convert_and_send_all [] = some []
    convert_and_send_all ((order, group) ∷ rest) = convert_and_send order group >>= λ es.
        convert_and_send_all rest >>= λ more. some (es ++ more)
