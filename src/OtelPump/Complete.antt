-- ===== src/OtelPump/Complete.antt =====
-- cmd/otelpump/otelpump.go: the readings of a group among its metrics.
use i_drac_telemetry_referen.Common.{
  Bool, true, false, ◌≡◌, ◌∙◌, refl, sym, ap, subst, Option, none, some, List, [], ◌∷◌, String, All,
  Any, All-perm, Any-perm, if◌then◌else◌, ◌⊎◌, inl, inr,
}
use i_drac_telemetry_referen.Common.Dict.{Dict}
use i_drac_telemetry_referen.Common.Int.{ℤ}
use i_drac_telemetry_referen.Common.Text.{◌==◌}
use i_drac_telemetry_referen.Databus.Group.{DataGroup}
use i_drac_telemetry_referen.OtelPump.{Readings, Scalar, OtelMeta, KeyValue, Dp, parse_nanos}
use i_drac_telemetry_referen.OtelPump.Metrics.{
  MapOrder, Number, Metric, number_of, point, points_of, metadata_or_nil, metric_of, named,
  or_prefixed, meta_of, metrics_of, scopes_of, ScopeMetrics, scope_metrics_of, scope_or_new,
  with_meta, with_scope,
}
use i_drac_telemetry_referen.Json.Results.{Gives, Gives-bind, Gives-weaken}
use i_drac_telemetry_referen.OtelPump.Kept.{
  IsIn, IsUnder, IsInt, IsIntEnum, All-get, metadata_of-Gives, IsKept, points_of-IsKept,
}

-- The metrics that are known have integers for the values of their enumerations.
abbrev pub IsSound : Dict OtelMeta → Type 0
IsSound metas = All (λ e. IsIntEnum e.1.enum) metas

named_sound : (o : Option OtelMeta) (om : OtelMeta) → named o ≡ some om → o ≡ some om
named_sound none om h = h
named_sound (some m) om h = from_test (m.name == "") h
  where
    from_test : (b : Bool) → (if b then none else some m) ≡ some om → some m ≡ some om
    from_test true e = cc
    from_test false e = e

or_prefixed-cases :
    (o p : Option OtelMeta) (om : OtelMeta)
    → or_prefixed o p ≡ some om
    → (o ≡ some om) ⊎ (p ≡ some om)
or_prefixed-cases none p om h = inr h
or_prefixed-cases (some m) p om h = inl h

meta_of-IsIntEnum :
    (metas : Dict OtelMeta) (report id : String) (om : OtelMeta)
    → IsSound metas
    → meta_of metas report id ≡ some om
    → IsIntEnum om.enum
unfolding meta_of
meta_of-IsIntEnum metas report id om sound h = elim (or_prefixed-cases _ _ om h) [
  | inl e ↦ All-get (λ m. IsIntEnum m.enum) metas id om sound (named_sound _ om e)
  | inr e ↦ All-get (λ m. IsIntEnum m.enum) metas _ om sound (named_sound _ om e)
]

module _ (readings : Readings) (print_int : ℤ → String) (order : MapOrder) where
  open order use {range, range-Perm}

  metadata_or_nil-Gives :
      (loop : List String) (enum : Option (Dict Scalar))
      → IsIntEnum enum
      → Gives (metadata_or_nil readings print_int order loop enum) (λ _. Unit)
  metadata_or_nil-Gives loop none h = tt
  metadata_or_nil-Gives loop (some enum) h =
      metadata_of-Gives readings print_int order (range loop enum)
        (All-perm (λ e. IsInt e.1) (range-Perm loop enum) h)

  module _ (dp : Dp readings) (n : Number readings) where
    abbrev IsMade : OtelMeta → List (Dp readings) → Metric readings → Type 0
    IsMade om dps m =
        number_of readings om.enum dp.value ≡ some (some n)
        → Any (λ p. p ≡ dp) dps
        → (m.name ≡ om.name) × Any (λ q. q ≡ point readings dp n) m.points

    metric_of-IsMade :
        (loop : List String) (om : OtelMeta) (dps : List (Dp readings))
        → IsIntEnum om.enum
        → Gives (metric_of readings print_int order loop om dps) (IsMade om dps)
    unfolding metric_of
    metric_of-IsMade loop om dps ints =
        Gives-bind (λ _. Unit) _ (metadata_or_nil readings print_int order loop om.enum) _
          (metadata_or_nil-Gives loop om.enum ints)
          λ metadata _ _.
            Gives-bind (IsKept readings om.enum dp n dps) _ (points_of readings om.enum dps) _
              (points_of-IsKept readings om.enum dp n dps ints)
              λ points _ kept converted there. (refl, kept converted there)

    module _ (metas : Dict OtelMeta) (group : DataGroup) (sound : IsSound metas) (time : ℤ)
        (timed : parse_nanos readings group.timestamp ≡ some time) (id : String) (om : OtelMeta)
        (known : meta_of metas group.id id ≡ some om)
        (converted : number_of readings om.enum dp.value ≡ some (some n)) where
      abbrev Sent :
          Dict (List (Dp readings)) → Option (List KeyValue) × List (Metric readings) → Type 0
      Sent entries r = IsUnder readings dp id entries → IsIn readings dp n om r.1

      abbrev run :
          String
          → Dict (List (Dp readings))
          → Option (List KeyValue)
          → Option (Option (List KeyValue) × List (Metric readings))
      run = metrics_of readings print_int order metas group

      scope_or_new-Gives :
          (scope : Option (List KeyValue)) (fqdd i : String) (o : OtelMeta)
          → Gives (scope_or_new readings print_int order metas group scope fqdd i o) (λ _. Unit)
      unfolding scope_or_new
      scope_or_new-Gives none fqdd i o = rw timed tt
      scope_or_new-Gives (some attrs) fqdd i o = tt

      module _ (fqdd i : String) (dps : List (Dp readings)) (rest : Dict (List (Dp readings)))
          (ih : (scope : Option (List KeyValue)) → Gives (run fqdd rest scope) (Sent rest)) where
        with_scope-Sent :
            (loop : List String) (o : OtelMeta) (scope : Option (List KeyValue))
            → meta_of metas group.id i ≡ some o
            → Gives scope (λ _. Unit)
            → Gives
                (with_scope readings print_int order metas group (run fqdd rest) loop o dps scope)
                (Sent ((i, dps) ∷ rest))
        with_scope-Sent loop o none e h = absurd h
        with_scope-Sent loop o (some attrs) e h =
            Gives-bind (IsMade o dps) (Sent ((i, dps) ∷ rest))
              (metric_of readings print_int order loop o dps) _
              (metric_of-IsMade loop o dps (meta_of-IsIntEnum metas group.id i o sound e))
              λ m _ made.
                Gives-bind (Sent rest) (Sent ((i, dps) ∷ rest)) (run fqdd rest (some attrs)) _
                  (ih (some attrs)) λ r _ sent. first_or_later m r made sent
          where
            first_or_later :
                (m : Metric readings) (r : Option (List KeyValue) × List (Metric readings))
                → IsMade o dps m
                → Sent rest r
                → IsUnder readings dp id ((i, dps) ∷ rest)
                → IsIn readings dp n om (m ∷ r.1)
            first_or_later m r made sent (inl (same, there)) =
                let equation : some o ≡ some om =
                  sym e ∙ ap (meta_of metas group.id) same ∙ known in
                let same_meta : om ≡ o = cc in
                let there_with : number_of readings o.enum dp.value ≡ some (some n) =
                  subst (λ z. number_of readings z.enum dp.value ≡ some (some n)) same_meta
                    converted in
                inl (
                  subst (λ z. (m.name ≡ z.name) × Any (λ q. q ≡ point readings dp n) m.points)
                    (sym same_meta) (made there_with there))
            first_or_later m r made sent (inr later) = inr (sent later)

        with_meta-Sent :
            (scope : Option (List KeyValue)) (o : Option OtelMeta)
            → meta_of metas group.id i ≡ o
            → Gives
                (with_meta readings print_int order metas group (run fqdd rest) fqdd i dps scope o)
                (Sent ((i, dps) ∷ rest))
        with_meta-Sent scope none e =
            Gives-weaken (Sent rest) (Sent ((i, dps) ∷ rest)) (run fqdd rest scope)
              (λ r sent. not_first r sent) (ih scope)
          where
            not_first :
                (r : Option (List KeyValue) × List (Metric readings))
                → Sent rest r
                → IsUnder readings dp id ((i, dps) ∷ rest)
                → IsIn readings dp n om r.1
            not_first r sent (inl (same, there)) =
                let equation : none ≡ some om = sym e ∙ ap (meta_of metas group.id) same ∙ known in
                cc
            not_first r sent (inr later) = sent later
        with_meta-Sent scope (some o) e =
            with_scope-Sent (fqdd ∷ i ∷ "enum" ∷ []) o _ e (scope_or_new-Gives scope fqdd i o)

      metrics_of-Sent :
          (fqdd : String) (entries : Dict (List (Dp readings))) (scope : Option (List KeyValue))
          → Gives (run fqdd entries scope) (Sent entries)
      unfolding metrics_of
      metrics_of-Sent fqdd [] scope = λ none_there. absurd none_there
      metrics_of-Sent fqdd ((i, dps) ∷ rest) scope =
          with_meta-Sent fqdd i dps rest (metrics_of-Sent fqdd rest) scope
            (meta_of metas group.id i) refl

      pub scopes_of-IsIn :
          (c : String) (entries : Dict (Dict (List (Dp readings))))
          → Gives (scopes_of readings print_int order metas group entries) (λ sms.
            Any (λ e. (e.0 ≡ c) × IsUnder readings dp id e.1) entries
            → Any (λ sm. IsIn readings dp n om sm.metrics) sms)
      unfolding scopes_of
      scopes_of-IsIn c [] = λ none_there. none_there
      scopes_of-IsIn c ((fqdd, inner) ∷ rest) =
          Gives-bind (Sent (range (fqdd ∷ []) inner)) _ (run fqdd (range (fqdd ∷ []) inner) none) _
            (metrics_of-Sent fqdd (range (fqdd ∷ []) inner) none)
            λ r _ sent.
              Gives-bind _ _ (scopes_of readings print_int order metas group rest) _
                (scopes_of-IsIn c rest) λ sms _ ih. from_first r sms sent ih
        where
          from_first :
              (r : Option (List KeyValue) × List (Metric readings))
              (sms : List (ScopeMetrics readings))
              → Sent (range (fqdd ∷ []) inner) r
              → (Any (λ e. (e.0 ≡ c) × IsUnder readings dp id e.1) rest
                  → Any (λ sm. IsIn readings dp n om sm.metrics) sms)
              → Any (λ e. (e.0 ≡ c) × IsUnder readings dp id e.1) ((fqdd, inner) ∷ rest)
              → Any
                  (λ sm. IsIn readings dp n om sm.metrics)
                  (scope_metrics_of readings print_int order metas group r ∷ sms)
          from_first r sms sent ih (inl (_, under)) = inl (
              sent (
                Any-perm (λ e. (e.0 ≡ id) × Any (λ p. p ≡ dp) e.1) (range-Perm (fqdd ∷ []) inner)
                  under))
          from_first r sms sent ih (inr later) = inr (ih later)
