-- ===== src/OtelPump/Grouping.antt =====
-- cmd/otelpump/otelpump.go: the grouping of the readings, and the selection of them by a filter.
use i_drac_telemetry_referen.Common.{
  Bool, true, false, ◌&&◌, ◌≡◌, ◌∙◌, refl, sym, ap, append_assoc, append-nil, Option, none, some,
  List, [], ◌∷◌, ◌++◌, String, if◌then◌else◌, inl, inr, Option-cases, Bool-cases, if_same,
}
use i_drac_telemetry_referen.Common.Dict
use i_drac_telemetry_referen.Common.Dict.{Dict, get-put}
use i_drac_telemetry_referen.Common.Int.{ℤ}
use i_drac_telemetry_referen.Common.Text.{◌==◌, eq_iff}
use i_drac_telemetry_referen.Json.Structs.{◌>>=◌}
use i_drac_telemetry_referen.Databus.Group.{DataValue, DataGroup}
use i_drac_telemetry_referen.OtelPump.{
  Readings, Dp, Groups, dp_of, or_empty, parse_nanos, add_value, add_values, group_metrics,
}

-- Through two maps
abbrev pub found {ℓ} : {A : Type ℓ} → Dict (Dict A) → String → String → Option A
found groups c i = Dict.get groups c >>= λ inner. Dict.get inner i

pub get-or_empty {ℓ} :
    {A : Type ℓ} (o : Option (Dict A)) (i : String)
    → Dict.get (or_empty o) i ≡ (o >>= λ inner. Dict.get inner i)
unfolding Dict.get
get-or_empty none i = refl
get-or_empty (some m) i = refl

pub found-put {ℓ} :
    {A : Type ℓ} (groups : Dict (Dict A)) (x : String) (inner : Dict A) (c i : String)
    → found (Dict.put groups x inner) c i ≡ (if x == c then Dict.get inner i else found groups c i)
found-put groups x inner c i = rw (get-put groups x c inner) (if_bind (x == c))
  where
    if_bind :
        (b : Bool)
        → ((if b then some inner else Dict.get groups c) >>= λ m. Dict.get m i)
          ≡ (if b then Dict.get inner i else found groups c i)
    if_bind true = refl
    if_bind false = refl

module _ (readings : Readings) where
  abbrev pub add_timed : DataValue → Option ℤ → List (Dp readings) → List (Dp readings)
  add_timed v none rest = rest
  add_timed v (some time) rest = dp_of readings v time ∷ rest

  -- The points of the values with a context and an id whose times can be read
  unfoldable pub selected : String → String → List DataValue → List (Dp readings)
  selected c i [] = []
  selected c i (v ∷ vs) =
      let rest = selected c i vs in
      if v.context == c && v.id == i
      then add_timed v (parse_nanos readings v.timestamp) rest
      else rest

  abbrev followed : Option (List (Dp readings)) → List (Dp readings) → Option (List (Dp readings))
  followed none [] = none
  followed none (p ∷ ps) = some (p ∷ ps)
  followed (some qs) ps = some (qs ++ ps)

  found-add_value :
      (groups : Groups readings) (v : DataValue) (time : ℤ) (c i : String)
      → found (add_value readings groups v (some time)) c i ≡ (
          if v.context == c && v.id == i
          then some (or_empty (found groups c i) ++ dp_of readings v time ∷ [])
          else found groups c i)
  unfolding add_value
  found-add_value groups v time c i = elim (Bool-cases (v.context == c)) [
    | inl e ↦
        let at = (eq_iff v.context c).0 e in
        rw
          (
            found-put groups v.context _ c i,
            e,
            get-put _ v.id i _,
            at,
            get-or_empty (Dict.get groups c),
          )
          (elim (Bool-cases (v.id == i)) [
            | inl e2 ↦ rw (e2, (eq_iff v.id i).0 e2) refl
            | inr e2 ↦ rw (e2, get-or_empty (Dict.get groups c) i) refl
          ])
    | inr e ↦ rw (found-put groups v.context _ c i, e) refl
  ]

  followed-snoc :
      (o : Option (List (Dp readings))) (p : Dp readings) (ps : List (Dp readings))
      → followed (some (or_empty o ++ p ∷ [])) ps ≡ followed o (p ∷ ps)
  followed-snoc none p ps = refl
  followed-snoc (some qs) p ps = ap some (append_assoc qs (p ∷ []) ps)

  followed-nil : (o : Option (List (Dp readings))) → followed o [] ≡ o
  followed-nil none = refl
  followed-nil (some qs) = ap some (append-nil qs)

  found-add_values :
      (groups : Groups readings) (vs : List DataValue) (c i : String)
      → found (add_values readings groups vs) c i ≡ followed (found groups c i) (selected c i vs)
  unfolding add_values selected
  found-add_values groups [] c i = sym (followed-nil (found groups c i))
  found-add_values groups (v ∷ vs) c i = elim (Option-cases (parse_nanos readings v.timestamp)) [
    | inl e ↦
        rw (e, found-add_values groups vs c i)
          (ap (followed (found groups c i))
            (sym (if_same (v.context == c && v.id == i) (selected c i vs))))
    | inr (t, e) ↦
        rw
          (
            e,
            found-add_values (add_value readings groups v (some t)) vs c i,
            found-add_value groups v t c i,
          )
          (elim (Bool-cases (v.context == c && v.id == i)) [
            | inl e2 ↦
                rw e2 (followed-snoc (found groups c i) (dp_of readings v t) (selected c i vs))
            | inr e2 ↦ rw e2 refl
          ])
  ]

  abbrev pub some_points : List (Dp readings) → Option (List (Dp readings))
  some_points [] = none
  some_points (p ∷ ps) = some (p ∷ ps)

  followed_nothing : (ps : List (Dp readings)) → followed none ps ≡ some_points ps
  followed_nothing [] = refl
  followed_nothing (p ∷ ps) = refl

  -- Under a context and an id, the map has the points of just those values of the group that have
  -- them and whose times can be read, in their order; where there is none, it has no entry.
  pub group_metrics-selected :
      (group : DataGroup) (c i : String)
      → found (group_metrics readings group) c i
        ≡ some_points (selected c i (or_empty group.values))
  unfolding group_metrics Dict.get
  group_metrics-selected group c i =
      found-add_values [] (or_empty group.values) c i
      ∙ followed_nothing (selected c i (or_empty group.values))
