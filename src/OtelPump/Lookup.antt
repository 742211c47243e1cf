-- ===== src/OtelPump/Lookup.antt =====
-- cmd/otelpump/otelpump.go: a metric that is read from the file, and its lookup for a report.
use i_drac_telemetry_referen.Common.{
  Bool, true, false, ◌≡◌, refl, Option, none, some, List, String, if◌then◌else◌, inl, inr,
  Bool-cases, [], ◌∷◌, ◌∙◌, All,
}
use i_drac_telemetry_referen.Common.Ascii.{lower_text}
use i_drac_telemetry_referen.Common.Dict
use i_drac_telemetry_referen.Common.Dict.{Dict, get-put, get-put_same}
use i_drac_telemetry_referen.Common.Text.{◌==◌, append}
use i_drac_telemetry_referen.OtelPump.{Scalar, OtelMeta}
use i_drac_telemetry_referen.OtelPump.Metrics.{named, or_prefixed, meta_of}
use i_drac_telemetry_referen.OtelPump.Meta.{
  Setting, Metas, contains_string, text_of, enum_of, meta_with, attributes_of, metric_key,
  read_metric, read_metrics, read_with,
}
use i_drac_telemetry_referen.Json.Results.{Gives, Gives-bind, Gives-weaken}

named_lem : (om : OtelMeta) → om.name == "" ≡ false → named (some om) ≡ some om
named_lem om h = rw h refl

module _ (om : OtelMeta) (has_name : om.name == "" ≡ false) (metas : Metas)
    (report group_id : String) (lowered : lower_text group_id ≡ report) (rnm : String) where
  meta_of-plain : meta_of (Dict.put metas rnm om) group_id rnm ≡ some om
  unfolding meta_of
  meta_of-plain = rw (get-put_same metas rnm om, has_name) refl

  meta_of-prefixed :
      named (Dict.get metas rnm) ≡ none
      → meta_of (Dict.put metas (append report (append ":" rnm)) om) group_id rnm ≡ some om
  unfolding meta_of
  meta_of-prefixed absent =
      rw (lowered, get-put_same metas key om, has_name, get-put metas key rnm om)
        (by_test (key == rnm))
    where
      key : String
      key = append report (append ":" rnm)

      by_test :
          (b : Bool)
          → or_prefixed (named (if b then some om else Dict.get metas rnm)) (some om) ≡ some om
      by_test true = rw has_name refl
      by_test false = rw absent refl

module _ (repeated : List String) (report : String) (defaults local : Dict String) where
  put-lookup :
      (om : OtelMeta) (metas : Metas) (group_id rnm : String)
      → om.name == "" ≡ false
      → lower_text group_id ≡ report
      → (contains_string repeated rnm ≡ true → named (Dict.get metas rnm) ≡ none)
      → meta_of (Dict.put metas (metric_key repeated report defaults local rnm) om) group_id rnm
        ≡ some om
  unfolding metric_key
  put-lookup om metas group_id rnm has_name lowered absent =
      elim (Bool-cases (contains_string repeated rnm)) [
        | inl e ↦ rw e (meta_of-prefixed om has_name metas report group_id lowered rnm (absent e))
        | inr e ↦ rw e (meta_of-plain om has_name metas report group_id lowered rnm)
      ]

  -- A metric that has its three names, whose attributes and enumeration can be read, is found under
  -- its id, right after it has been read, for a group whose id is in lower case that of its report.
  -- Where the id is one of those that reports repeat, it is found if the id had no metric by itself
  -- before.
  pub read_metric-meta_of :
      (m : Dict Setting) (metas : Metas) (group_id onm otyp rnm : String) (attributes : Dict String)
      (enum : Option (Dict Scalar))
      → text_of (Dict.get m "otelmetricname") ≡ some onm
      → text_of (Dict.get m "oteltype") ≡ some otyp
      → text_of (Dict.get m "redfishname") ≡ some rnm
      → attributes_of repeated report defaults local (Dict.get m "attr") ≡ some attributes
      → enum_of (Dict.get m "enum") ≡ some enum
      → onm == "" ≡ false
      → lower_text group_id ≡ report
      → (contains_string repeated rnm ≡ true → named (Dict.get metas rnm) ≡ none)
      → Gives (read_metric repeated report defaults local m metas) (λ metas'.
        meta_of metas' group_id rnm
        ≡ some (meta_with repeated report defaults local m onm otyp attributes enum))
  unfolding read_metric
  read_metric-meta_of m metas group_id onm otyp rnm attributes enum has_onm has_otyp has_rnm
        readable readable_enum has_name lowered absent =
      rw (has_onm, has_otyp, has_rnm, readable, readable_enum)
        (put-lookup (meta_with repeated report defaults local m onm otyp attributes enum) metas
          group_id rnm has_name lowered absent)

  -- A metric that can be read, and is not kept under two keys
  abbrev pub IsOther : String → String → Dict Setting → Type 0
  IsOther key prefixed m =
      Gives (attributes_of repeated report defaults local (Dict.get m "attr")) (λ _. Unit)
      × Gives (enum_of (Dict.get m "enum")) (λ _. Unit)
      × ((r : String)
          → text_of (Dict.get m "redfishname") ≡ some r
          → (metric_key repeated report defaults local r == key ≡ false)
            × (metric_key repeated report defaults local r == prefixed ≡ false))

  abbrev Same : String → String → Metas → Metas → Type 0
  Same key prefixed metas metas' =
      (Dict.get metas' key ≡ Dict.get metas key)
      × (Dict.get metas' prefixed ≡ Dict.get metas prefixed)

  read_with-Same :
      (key prefixed : String) (m : Dict Setting) (metas : Metas) (onm otyp rnm : Option String)
      → text_of (Dict.get m "redfishname") ≡ rnm
      → IsOther key prefixed m
      → Gives
          (read_with repeated report defaults local m onm otyp rnm metas)
          (Same key prefixed metas)
  read_with-Same key prefixed m metas (some onm) (some otyp) (some rnm) e other =
      Gives-bind (λ _. Unit) _ (attributes_of repeated report defaults local (Dict.get m "attr")) _
        other.0
        λ attributes _ _.
          Gives-bind (λ _. Unit) _ (enum_of (Dict.get m "enum")) _ other.1
            λ enum _ _.
              let (h, h') = other.2 rnm e in
              (get-put metas _ key _ ∙ rw h refl, get-put metas _ prefixed _ ∙ rw h' refl)
  read_with-Same key prefixed m metas none otyp rnm e other = (refl, refl)
  read_with-Same key prefixed m metas (some onm) none rnm e other = (refl, refl)
  read_with-Same key prefixed m metas (some onm) (some otyp) none e other = (refl, refl)

  read_metrics-Same :
      (key prefixed : String) (ms : List (Dict Setting)) (metas : Metas)
      → All (IsOther key prefixed) ms
      → Gives (read_metrics repeated report defaults local ms metas) (Same key prefixed metas)
  unfolding read_metrics read_metric
  read_metrics-Same key prefixed [] metas h = (refl, refl)
  read_metrics-Same key prefixed (m ∷ ms) metas h =
      Gives-bind (Same key prefixed metas) (Same key prefixed metas)
        (read_metric repeated report defaults local m metas) _
        (read_with-Same key prefixed m metas (text_of (Dict.get m "otelmetricname"))
          (text_of (Dict.get m "oteltype")) _ refl h.0)
        λ metas' _ same.
          Gives-weaken (Same key prefixed metas') (Same key prefixed metas) _
            (λ metas'' h'. (h'.0 ∙ same.0, h'.1 ∙ same.1))
            (read_metrics-Same key prefixed ms metas' h.1)

  meta_of-Same :
      (metas metas' : Metas) (group_id rnm : String)
      → lower_text group_id ≡ report
      → Same rnm (append report (append ":" rnm)) metas metas'
      → meta_of metas' group_id rnm ≡ meta_of metas group_id rnm
  unfolding meta_of
  meta_of-Same metas metas' group_id rnm lowered same = rw (lowered, same.0, same.1) refl

  -- Of the metrics of a report: one that has its three names, whose attributes and enumeration can
  -- be read, and behind which all metrics can be read and are kept under other keys, is found under
  -- its id when all of these have been read, for a group whose id is in lower case that of the
  -- report. Where the id is one of those that reports repeat, it is found if the id had no metric by
  -- itself before.
  pub read_metrics-meta_of :
      (m : Dict Setting) (ms : List (Dict Setting)) (metas : Metas) (group_id onm otyp rnm : String)
      (attributes : Dict String) (enum : Option (Dict Scalar))
      → text_of (Dict.get m "otelmetricname") ≡ some onm
      → text_of (Dict.get m "oteltype") ≡ some otyp
      → text_of (Dict.get m "redfishname") ≡ some rnm
      → attributes_of repeated report defaults local (Dict.get m "attr") ≡ some attributes
      → enum_of (Dict.get m "enum") ≡ some enum
      → onm == "" ≡ false
      → lower_text group_id ≡ report
      → (contains_string repeated rnm ≡ true → named (Dict.get metas rnm) ≡ none)
      → All (IsOther rnm (append report (append ":" rnm))) ms
      → Gives (read_metrics repeated report defaults local (m ∷ ms) metas) (λ metas'.
        meta_of metas' group_id rnm
        ≡ some (meta_with repeated report defaults local m onm otyp attributes enum))
  unfolding read_metrics
  read_metrics-meta_of m ms metas group_id onm otyp rnm attributes enum has_onm has_otyp has_rnm
        readable readable_enum has_name lowered absent others =
      Gives-bind
        (λ metas'.
          meta_of metas' group_id rnm
          ≡ some (meta_with repeated report defaults local m onm otyp attributes enum))
        _ (read_metric repeated report defaults local m metas) _
        (read_metric-meta_of m metas group_id onm otyp rnm attributes enum has_onm has_otyp has_rnm
          readable readable_enum has_name lowered absent)
        λ metas' _ there.
          Gives-weaken (Same rnm (append report (append ":" rnm)) metas') _ _
            (λ metas'' same. meta_of-Same metas' metas'' group_id rnm lowered same ∙ there)
            (read_metrics-Same rnm (append report (append ":" rnm)) ms metas' others)
