-- ===== src/Redfish/Walk/Missing.antt =====
-- How many of the known addresses have not been walked.
use i_drac_telemetry_referen.Common.{
  ℕ, ◌+◌, ◌≤◌, ◌<◌, arith, true, false, ◌≡◌, refl, sym, ap, ◌∙◌, ◌||◌, inl, inr, Option, none, some,
  List, [], ◌∷◌, String, Bool-cases,
}
use i_drac_telemetry_referen.Common.Dict
use i_drac_telemetry_referen.Common.Dict.{get-put, get-put_same}
use i_drac_telemetry_referen.Common.Text.{◌==◌, eq_iff}
use i_drac_telemetry_referen.Databus.{contains}
use i_drac_telemetry_referen.Redfish.{RedfishPayload}
use i_drac_telemetry_referen.Redfish.Walk.{Resources}

-- Every resource stays, as it is.
abbrev pub Extends : Resources → Resources → Type 0
Extends res res' =
    (u : String) (p : RedfishPayload) → Dict.get res u ≡ some p → Dict.get res' u ≡ some p

abbrev one_if_none : Option RedfishPayload → ℕ
one_if_none none = 1
one_if_none (some p) = 0

unfoldable pub missing : List String → Resources → ℕ
missing [] res = 0
missing (u ∷ us) res = one_if_none (Dict.get res u) + missing us res

one_if_none-le :
    (o o' : Option RedfishPayload)
    → ((p : RedfishPayload) → o ≡ some p → o' ≡ some p)
    → one_if_none o' ≤ one_if_none o
one_if_none-le none none h = omega arith
one_if_none-le none (some q) h = omega arith
one_if_none-le (some p) o' h = rw (h p refl) (omega arith)

pub missing-Extends :
    (known : List String) (res res' : Resources)
    → Extends res res'
    → missing known res' ≤ missing known res
unfolding missing
missing-Extends [] res res' h = omega arith
missing-Extends (u ∷ us) res res' h =
    omega (
      arith,
      one_if_none-le (Dict.get res u) (Dict.get res' u) (h u),
      missing-Extends us res res' h,
    )

module _ (res : Resources) (u : String) (p : RedfishPayload) (new : Dict.get res u ≡ none) where
  new-other : (v : String) (q : RedfishPayload) → Dict.get res v ≡ some q → u == v ≡ false
  new-other v q e = elim (Bool-cases (u == v)) [
    | inr other ↦ other
    | inl same ↦ cc (e, new, (eq_iff u v).0 same)
  ]

  pub Extends-put : Extends res (Dict.put res u p)
  Extends-put v q e = get-put res u v p ∙ rw (new-other v q e) e

  pub missing-put :
      (known : List String)
      → contains known u ≡ true
      → missing known (Dict.put res u p) < missing known res
  unfolding missing
  missing-put [] there = cc there
  missing-put (v ∷ vs) there = elim (Bool-cases (v == u)) [
    | inl same ↦ rw (ap (λ x. Dict.get res x) ((eq_iff v u).0 same) ∙ new) (
        rw (ap (λ x. Dict.get (Dict.put res u p) x) ((eq_iff v u).0 same) ∙ get-put_same res u p)
          (omega (arith, missing-Extends vs res (Dict.put res u p) Extends-put)))
    | inr other ↦ omega (
      arith,
      one_if_none-le (Dict.get res v) (Dict.get (Dict.put res u p) v) (Extends-put v),
      missing-put vs (sym (ap (λ b. b || contains vs u) other) ∙ there),
    )
  ]
