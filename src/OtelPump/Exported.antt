-- ===== src/OtelPump/Exported.antt =====
-- cmd/otelpump/otelpump.go: what the loop over the groups exports of the readings of a group.
use i_drac_telemetry_referen.Common.{
  Bool, true, false, ◌&&◌, ◌≡◌, refl, sym, subst, Option, none, some, List, [], ◌∷◌, String, Any,
  Any-perm, Any-weaken, if◌then◌else◌, inl, inr,
}
use i_drac_telemetry_referen.Common.Dict
use i_drac_telemetry_referen.Common.Dict.{Dict}
use i_drac_telemetry_referen.Common.Int.{ℤ}
use i_drac_telemetry_referen.Common.Text.{◌==◌, eq_refl}
use i_drac_telemetry_referen.Json.{JsonText}
use i_drac_telemetry_referen.Json.Structs.{◌>>=◌}
use i_drac_telemetry_referen.Databus.Group.{DataValue, DataGroup}
use i_drac_telemetry_referen.OtelPump.{
  Readings, OtelMeta, Dp, Groups, dp_of, or_empty, reading_of, parse_nanos, group_metrics,
}
use i_drac_telemetry_referen.OtelPump.Metrics.{
  MapOrder, Number, ResourceMetrics, ScopeMetrics, number_of, meta_of, scopes_of, to_otlp_metrics,
}
use i_drac_telemetry_referen.OtelPump.Grouping.{
  found, add_timed, selected, some_points, group_metrics-selected,
}
use i_drac_telemetry_referen.Json.Results.{Gives, Gives-bind}
use i_drac_telemetry_referen.OtelPump.Kept.{entry-get, IsIn, IsUnder}
use i_drac_telemetry_referen.OtelPump.Complete.{IsSound, scopes_of-IsIn}
use i_drac_telemetry_referen.OtelPump.Sending.{
  Export, metrics, logs, convert, convert_and_send, metrics_if_any,
}

module _ (readings : Readings) where
  module _ (dp : Dp readings) where
    kept :
        (b : Bool) (w : DataValue) (o : Option ℤ) (rest : List (Dp readings))
        → Any (λ p. p ≡ dp) rest
        → Any (λ p. p ≡ dp) (if b then add_timed readings w o rest else rest)
    kept false w o rest h = h
    kept true w none rest h = h
    kept true w (some t) rest h = inr h

  selected-there :
      (v : DataValue) (time : ℤ) (vs : List DataValue)
      → parse_nanos readings v.timestamp ≡ some time
      → Any (λ w. w ≡ v) vs
      → Any (λ p. p ≡ dp_of readings v time) (selected readings v.context v.id vs)
  unfolding selected
  selected-there v time [] e h = h
  selected-there v time (w ∷ ws) e (inl same) =
      subst (λ w. Any (λ p. p ≡ dp_of readings v time) (selected readings v.context v.id (w ∷ ws)))
        (sym same) (rw (eq_refl v.context, eq_refl v.id, e) (inl refl))
  selected-there v time (w ∷ ws) e (inr later) =
      kept _ (w.context == v.context && w.id == v.id) w (parse_nanos readings w.timestamp) _
        (selected-there v time ws e later)

  module _ (c id : String) (dp : Dp readings) where
    found-IsUnder :
        (groups : Groups readings) (ps : List (Dp readings))
        → found groups c id ≡ some ps
        → Any (λ p. p ≡ dp) ps
        → Any (λ e. (e.0 ≡ c) × IsUnder readings dp id e.1) groups
    found-IsUnder groups ps e h = from_inner (Dict.get groups c) refl e
      where
        from_inner :
            (o : Option (Dict (List (Dp readings))))
            → Dict.get groups c ≡ o
            → (o >>= λ inner. Dict.get inner id) ≡ some ps
            → Any (λ e. (e.0 ≡ c) × IsUnder readings dp id e.1) groups
        from_inner none e h' = cc
        from_inner (some inner) e h' =
            let there =
              Any-weaken (λ e. (e.0 ≡ id) × (e.1 ≡ ps)) (λ e. (e.0 ≡ id) × Any (λ p. p ≡ dp) e.1)
                inner (λ e i. (i.0, subst (Any (λ p. p ≡ dp)) (sym i.1) h))
                (entry-get inner id ps h') in
            Any-weaken (λ e. (e.0 ≡ c) × (e.1 ≡ inner))
              (λ e. (e.0 ≡ c) × IsUnder readings dp id e.1) groups
              (λ e i. (i.0, subst (IsUnder readings dp id) (sym i.1) there))
              (entry-get groups c inner e)

  -- The point of a value is among the groups
  group_metrics-there :
      (group : DataGroup) (v : DataValue) (time : ℤ)
      → parse_nanos readings v.timestamp ≡ some time
      → Any (λ w. w ≡ v) (or_empty group.values)
      → Any
          (λ e. (e.0 ≡ v.context) × IsUnder readings (dp_of readings v time) v.id e.1)
          (group_metrics readings group)
  group_metrics-there group v time e h =
      from_selected (selected readings v.context v.id (or_empty group.values))
        (group_metrics-selected readings group v.context v.id)
        (selected-there v time (or_empty group.values) e h)
    where
      from_selected :
          (ps : List (Dp readings))
          → found (group_metrics readings group) v.context v.id ≡ some_points readings ps
          → Any (λ p. p ≡ dp_of readings v time) ps
          → Any
              (λ e. (e.0 ≡ v.context) × IsUnder readings (dp_of readings v time) v.id e.1)
              (group_metrics readings group)
      from_selected [] found_there there = absurd there
      from_selected (p ∷ ps) found_there there =
          found-IsUnder v.context v.id (dp_of readings v time) (group_metrics readings group)
            (p ∷ ps) found_there there

  -- A point with a number, in a metric of a name
  abbrev pub IsConverted :
      Dp readings → Number readings → OtelMeta → ResourceMetrics readings → Type 0
  IsConverted dp n om rm = Any (λ sm. IsIn readings dp n om sm.metrics) rm.scope_metrics

  module _ (json : JsonText) where
    abbrev pub IsExported : Dp readings → Number readings → OtelMeta → Export readings json → Type 0
    IsExported dp n om (metrics rm) = IsConverted dp n om rm
    IsExported dp n om (logs rl) = ⊥

    metrics_if_any-IsExported :
        (dp : Dp readings) (n : Number readings) (om : OtelMeta) (rm : ResourceMetrics readings)
        (sms : List (ScopeMetrics readings))
        → IsConverted dp n om rm
        → Any (λ sm. IsIn readings dp n om sm.metrics) sms
        → Any (IsExported dp n om) (metrics_if_any readings json rm sms)
    metrics_if_any-IsExported dp n om rm [] h there = absurd there
    metrics_if_any-IsExported dp n om rm (sm ∷ sms) h there = inl h

    module _ (print_int : ℤ → String) (order : MapOrder) (metas : Dict OtelMeta) (group : DataGroup)
        (v : DataValue) (time report_time : ℤ) (om : OtelMeta) (n : Number readings)
        (sound : IsSound metas) (timed : parse_nanos readings v.timestamp ≡ some time)
        (report_timed : parse_nanos readings group.timestamp ≡ some report_time)
        (known : meta_of metas group.id v.id ≡ some om)
        (converted : number_of readings om.enum (reading_of readings v.value) ≡ some (some n)) where
      to_otlp_metrics-IsConverted :
          Any (λ w. w ≡ v) (or_empty group.values)
          → Gives
              (to_otlp_metrics readings print_int order metas group)
              (IsConverted (dp_of readings v time) n om)
      unfolding to_otlp_metrics
      to_otlp_metrics-IsConverted there =
          let groups = group_metrics readings group in
          let dp = dp_of readings v time in
          Gives-bind _ (IsConverted dp n om)
            (scopes_of readings print_int order metas group (order.range [] groups)) _
            (scopes_of-IsIn readings print_int order dp n metas group sound report_time report_timed
              v.id om known converted v.context (order.range [] groups))
            λ sms _ h. h (
              Any-perm _ (order.range-Perm [] groups)
                (group_metrics-there group v time timed there))

      convert-IsExported :
          (vs : List DataValue)
          → Any (λ w. w ≡ v) vs
          → Any (λ w. w ≡ v) (or_empty group.values)
          → Gives
              (convert readings json print_int metas order group vs)
              (Any (IsExported (dp_of readings v time) n om))
      convert-IsExported [] h there = absurd h
      convert-IsExported (w ∷ ws) h there =
          Gives-bind (IsConverted (dp_of readings v time) n om) _
            (to_otlp_metrics readings print_int order metas group) _
            (to_otlp_metrics-IsConverted there)
            λ rm _ is_converted.
              metrics_if_any-IsExported (dp_of readings v time) n om rm rm.scope_metrics
                is_converted is_converted

      -- One round of the loop for a group that is not MemoryMetrics
      pub convert_and_send-IsExported :
          group.id == "MemoryMetrics" ≡ false
          → Any (λ w. w ≡ v) (or_empty group.values)
          → Gives
              (convert_and_send readings json print_int metas order group)
              (Any (IsExported (dp_of readings v time) n om))
      unfolding convert_and_send
      convert_and_send-IsExported other there =
          rw other (convert-IsExported (or_empty group.values) there there)
