-- ===== src/Redfish/Walk/Closure.antt =====
-- A walk comes to its end, and what it has found is what can be reached.
use mathlib.Core.Option.{some-injective}
use i_drac_telemetry_referen.Common.{
  ℕ, zero, suc, ◌≤◌, ◌<◌, arith, true, ◌≡◌, refl, sym, ap, subst, ◌∙◌, ◌||◌, ◌⊎◌, ◌↔◌, inl, inr,
  none, some, List, [], ◌∷◌, String, Bool-cases, Option-cases, length,
}
use i_drac_telemetry_referen.Common.Dict
use i_drac_telemetry_referen.Common.Dict.{get-put, get-put_same}
use i_drac_telemetry_referen.Common.Text.{◌==◌, eq_iff, eq_refl}
use i_drac_telemetry_referen.Databus.{contains}
use i_drac_telemetry_referen.Redfish.{RedfishPayload, Outcome, value, failed, ◌>>=◌}
use i_drac_telemetry_referen.Redfish.Walk.{Resources, visit_new, walk_got, walk_uri, walk_all}
use i_drac_telemetry_referen.Redfish.Walk.Links.{resource_links, Walkable, visit_all, walk-links}
use i_drac_telemetry_referen.Redfish.Walk.Missing.{
  Extends, missing, missing-Extends, Extends-put, missing-put,
}

value-injective :
    (p q : RedfishPayload) → ◌≡◌ {A = Outcome RedfishPayload} (value p) (value q) → p ≡ q
value-injective p q e = cc e

module _ (get_uri : String → Outcome RedfishPayload) (known : List String)
    (answers : (uri : String)
      → (get_uri uri ≡ failed)
        ⊎ ((p : RedfishPayload) × (get_uri uri ≡ value p)
            × (contains known uri ≡ true)
            × Walkable p)) where
  -- What links lead to from the root
  pub data Reachable : String → Type 0 where
    root : Reachable "/redfish/v1"
    link :
        {u : String} {p : RedfishPayload} (v : String)
        → Reachable u
        → get_uri u ≡ value p
        → contains (resource_links p) v ≡ true
        → Reachable v

  -- A resource that has been found has been answered.
  abbrev Sound : Resources → Type 0
  Sound res =
      (u : String) (p : RedfishPayload)
      → Dict.get res u ≡ some p
      → (get_uri u ≡ value p) × Reachable u

  -- An address that has been walked, or that cannot be fetched
  abbrev Settled : Resources → String → Type 0
  Settled res u = (get_uri u ≡ failed) ⊎ ((p : RedfishPayload) × (Dict.get res u ≡ some p))

  abbrev AllSettled : Resources → List String → Type 0
  AllSettled res us = (v : String) → contains us v ≡ true → Settled res v

  -- What a walk of some addresses has done.
  record Walked (res res' : Resources) (us : List String) : Type 0 where
    extends : Extends res res'
    sound : Sound res'
    settled : AllSettled res' us
    closed :
        (u : String) (p : RedfishPayload)
        → Dict.get res' u ≡ some p
        → (Dict.get res u ≡ some p) ⊎ AllSettled res' (resource_links p)

  contains-here : (u : String) → contains (u ∷ []) u ≡ true
  contains-here u = rw (eq_refl u)

  contains-later :
      (u v : String) (us : List String) → contains us v ≡ true → contains (u ∷ us) v ≡ true
  contains-later u v us m = ground (arith, m)

  AllSettled-cons :
      (res : Resources) (u : String) (us : List String)
      → Settled res u
      → AllSettled res us
      → AllSettled res (u ∷ us)
  AllSettled-cons res u us here s v m = elim (Bool-cases (u == v)) [
    | inl same ↦ subst (Settled res) ((eq_iff u v).0 same) here
    | inr other ↦ s v (sym (ap (λ b. b || contains us v) other) ∙ m)
  ]

  Settled-Extends :
      (res res' : Resources) (u : String) → Extends res res' → Settled res u → Settled res' u
  Settled-Extends res res' u more (inl gone) = inl gone
  Settled-Extends res res' u more (inr (p, e)) = inr (p, more u p e)

  AllSettled-Extends :
      (res res' : Resources) (us : List String)
      → Extends res res'
      → AllSettled res us
      → AllSettled res' us
  AllSettled-Extends res res' us more s v m = Settled-Extends res res' v more (s v m)

  Walked-nil : (res : Resources) → Sound res → Walked res res []
  Walked-nil res s = record {
    extends = λ u p e. e;
    sound = s;
    settled = λ v m. cc m;
    closed = λ u p e. inl e;
  }

  -- Nothing is done for an address that is settled.
  Walked-Settled :
      (res : Resources) (u : String) → Sound res → Settled res u → Walked res res (u ∷ [])
  Walked-Settled res u s here = record {
    extends = λ u p e. e;
    sound = s;
    settled = AllSettled-cons res u [] here (λ v m. cc m);
    closed = λ u p e. inl e;
  }

  Walked-then :
      (res res1 res2 : Resources) (u : String) (us : List String)
      → Walked res res1 (u ∷ [])
      → Walked res1 res2 us
      → Walked res res2 (u ∷ us)
  Walked-then res res1 res2 u us a b = record {
    extends = λ v p e. b.extends v p (a.extends v p e);
    sound = b.sound;
    settled =
        AllSettled-cons res2 u us
          (Settled-Extends res1 res2 u b.extends (a.settled u (contains-here u))) b.settled;
    closed = λ v p e. elim (b.closed v p e) [
      | inr s ↦ inr s
      | inl there ↦ elim (a.closed v p there) [
        | inl old ↦ inl old
        | inr s ↦ inr (AllSettled-Extends res1 res2 (resource_links p) b.extends s)
      ]
    ];
  }

  -- A visit of a new address that can be reached ends, while fewer than n known ones are missing.
  abbrev Ends : (String → Resources → Outcome Resources) → ℕ → Type 0
  Ends visit n =
      (u : String) (res : Resources)
      → Dict.get res u ≡ none
      → Reachable u
      → Sound res
      → missing known res < n
      → (res' : Resources) × (visit u res ≡ value res') × Walked res res' (u ∷ [])

  module _ (visit : String → Resources → Outcome Resources) (n : ℕ) (ends : Ends visit n) where
    visit_new-Walked :
        (u : String) (res : Resources)
        → Reachable u
        → Sound res
        → missing known res < n
        → (res' : Resources) × (visit_new visit (Dict.get res u) u res ≡ value res')
          × Walked res res' (u ∷ [])
    visit_new-Walked u res r s few = elim (Option-cases (Dict.get res u)) [
      | inl new ↦ rw new (ends u res new r s few)
      | inr (p, there) ↦ rw there (res, refl, Walked-Settled res u s (inr (p, there)))
    ]

    visit_all-Walked :
        (us : List String) (res : Resources)
        → ((v : String) → contains us v ≡ true → Reachable v)
        → Sound res
        → missing known res < n
        → (res' : Resources) × (visit_all visit us res ≡ value res') × Walked res res' us
    unfolding visit_all
    visit_all-Walked [] res r s few = (res, refl, Walked-nil res s)
    visit_all-Walked (u ∷ us) res r s few =
        let (res1, e1, w1) = visit_new-Walked u res (r u (rw (eq_refl u))) s few in
        let (res2, e2, w2) =
          visit_all-Walked us res1 (λ v m. r v (contains-later u v us m)) w1.sound
            (omega (arith, few, missing-Extends known res res1 w1.extends)) in
        (res2, ap (λ o. o >>= visit_all visit us) e1 ∙ e2, Walked-then res res1 res2 u us w1 w2)

  put-same :
      (res : Resources) (u v : String) (p q : RedfishPayload)
      → u == v ≡ true
      → Dict.get (Dict.put res u p) v ≡ some q
      → p ≡ q
  put-same res u v p q same e = some-injective p q (sym (get-put res u v p ∙ rw same) ∙ e)

  Sound-put :
      (res : Resources) (u : String) (p : RedfishPayload)
      → Sound res
      → get_uri u ≡ value p
      → Reachable u
      → Sound (Dict.put res u p)
  Sound-put res u p s answered r v q e = elim (Bool-cases (u == v)) [
    | inl same ↦
        subst (λ x. (get_uri x ≡ value q) × Reachable x) ((eq_iff u v).0 same)
          (answered ∙ ap value (put-same res u v p q same e), r)
    | inr other ↦ s v q (sym (get-put res u v p ∙ rw other) ∙ e)
  ]

  -- The payload is put before its links are walked.
  Walked-put :
      (res res' : Resources) (u : String) (p : RedfishPayload)
      → Dict.get res u ≡ none
      → Walked (Dict.put res u p) res' (resource_links p)
      → Walked res res' (u ∷ [])
  Walked-put res res' u p new w = record {
    extends = λ v q e. w.extends v q (Extends-put res u p new v q e);
    sound = w.sound;
    settled =
        AllSettled-cons res' u [] (inr (p, w.extends u p (get-put_same res u p))) (λ v m. cc m);
    closed = λ v q e. elim (w.closed v q e) [
      | inr s ↦ inr s
      | inl there ↦ elim (Bool-cases (u == v)) [
        | inl same ↦ inr (
            subst (λ x. AllSettled res' (resource_links x)) (put-same res u v p q same there)
              w.settled)
        | inr other ↦ inl (sym (get-put res u v p ∙ rw other) ∙ there)
      ]
    ];
  }

  walk_uri-Ends : (n : ℕ) → Ends (walk_uri get_uri n) n
  unfolding walk_uri
  walk_uri-Ends zero u res new r s few = absurd (omega arith)
  walk_uri-Ends (suc n) u res new r s few = elim (answers u) [
    | inl gone ↦
        (res, ap (walk_got (walk_uri get_uri n) u res) gone, Walked-Settled res u s (inl gone))
    | inr (p, answered, there, walkable) ↦
        let (res', e, w) =
          visit_all-Walked (walk_uri get_uri n) n (walk_uri-Ends n) (resource_links p)
            (Dict.put res u p) (λ v m. link v r answered m) (Sound-put res u p s answered r)
            (omega (arith, few, missing-put res u p new known there)) in
        (
          res',
          ap (walk_got (walk_uri get_uri n) u res) answered
              ∙ walk-links (walk_uri get_uri n) p walkable (Dict.put res u p)
              ∙ e,
          Walked-put res res' u p new w,
        )
  ]

  missing-length : (us : List String) → missing us [] ≤ length us
  unfolding missing Dict.get
  missing-length [] = omega arith
  missing-length (u ∷ us) = omega (arith, missing-length us)

  Reachable-Settled :
      (res : Resources)
      → Walked [] res ("/redfish/v1" ∷ [])
      → (u : String) → Reachable u
      → Settled res u
  unfolding Dict.get
  Reachable-Settled res w u root = w.settled "/redfish/v1" (contains-here "/redfish/v1")
  Reachable-Settled res w _ (link {u} {p} v r answered m) = elim (Reachable-Settled res w u r) [
    | inl gone ↦ cc (gone, answered)
    | inr (q, e) ↦ elim (w.closed u q e) [
      | inl nothing ↦ cc nothing
      | inr s ↦ s v (
          subst (λ x. contains (resource_links x) v ≡ true)
            (value-injective p q (sym answered ∙ (w.sound u q e).0)) m)
    ]
  ]

  -- A device answers only known addresses with resources, whose links are texts, and any other with
  -- an error. Then a walk with one round of fuel more than there are known addresses ends, and it has
  -- found exactly the resources that links lead to from the root, each as the device answers it.
  pub walk_all-Reachable :
      (res : Resources) × (walk_all get_uri (suc (length known)) ≡ value res)
      × ((u : String) (p : RedfishPayload)
          → (Dict.get res u ≡ some p) ↔ ((get_uri u ≡ value p) × Reachable u))
  unfolding walk_all Dict.get
  walk_all-Reachable =
      let (res, e, w) =
        walk_uri-Ends (suc (length known)) "/redfish/v1" [] refl root (λ u p e. cc e)
          (omega (arith, missing-length known)) in
      (
        res,
        e,
        λ u p. (
          w.sound u p,
          λ h. elim (Reachable-Settled res w u h.1) [
            | inl gone ↦ cc (gone, h.0)
            | inr (q, there) ↦
                there ∙ ap some (value-injective q p (sym (w.sound u q there).0 ∙ h.0))
          ],
        ),
      )
