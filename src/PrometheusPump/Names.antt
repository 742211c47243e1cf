-- ===== src/PrometheusPump/Names.antt =====
-- cmd/prometheuspump/prometheuspump.go: the names under which the registry has the gauges.
use i_drac_telemetry_referen.Common.{
  Bool, true, false, ◌&&◌, ◌||◌, ◌≡◌, ◌∙◌, refl, sym, ap, subst, Option, none, some, List, ◌∷◌,
  String, if◌then◌else◌,
}
use i_drac_telemetry_referen.Common.Dict
use i_drac_telemetry_referen.Common.Dict.{Dict}
use i_drac_telemetry_referen.Common.Text.{◌==◌, eq_iff}
use i_drac_telemetry_referen.Json.Structs.{◌>>=◌}
use i_drac_telemetry_referen.Json.Results.{Gives, Gives-bind, Gives-weaken}
use i_drac_telemetry_referen.Databus.{contains}
use i_drac_telemetry_referen.OtelPump.Grouping.{found, get-or_empty}
use i_drac_telemetry_referen.PrometheusPump.{
  Library, Pump, stored, registered, with_gauge, do_gauge,
}
use i_drac_telemetry_referen.PrometheusPump.Gauges.{
  GaugeLaws, same_labels, same_length, reading, names, IsShaped, found-stored, stored-reading,
  stored-IsShaped,
}

module _ (library : Library) (laws : GaugeLaws library) where
  open library use {Float, GaugeVec}
  open laws use {
    labels, value_at, labels-new_gauge_vec, value_at-new_gauge_vec, set_gauge-value_at,
    build_fq_name, full_name, is_valid, registered_names, full_name-new_gauge_vec,
    register-registered_names,
  }

  -- The gauges of devices have no subsystem.
  abbrev pub subsystem_of : String → String
  subsystem_of key = if key == "FQDD" then "" else key

  -- Keys and names whose gauges are valid, with full names that differ
  pub record IsNameable (D : String → String → Type 0) : Type 0 where
    pub valid :
        (k i : String)
        → D k i
        → is_valid (library.new_gauge_vec (subsystem_of k) i (names library laws k)) ≡ true
    pub one_name :
        (k i k' i' : String)
        → D k i
        → D k' i'
        → build_fq_name (subsystem_of k) i ≡ build_fq_name (subsystem_of k') i'
        → (k ≡ k') × (i ≡ i')

  module _ (D : String → String → Type 0) where
    -- The registry has no gauge of the names that the pump has not.
    abbrev pub IsFree : Pump library → Type 0
    IsFree pump =
        (k i : String)
        → D k i
        → found pump.collectors k i ≡ none
        → contains (registered_names pump.registry) (build_fq_name (subsystem_of k) i) ≡ false

    -- A pump after a value has been set
    abbrev pub IsUpdated :
        Pump library → String → String → List String → Float → Pump library → Type 0
    IsUpdated pump key id l f pump' =
        IsShaped library laws pump'
        × IsFree pump'
        × ((k i : String) (m : List String)
            → reading library laws pump' k i m ≡ (
                if key == k && (id == i && same_labels l m)
                then some f
                else reading library laws pump k i m))

    registered-IsFree :
        (pump : Pump library) (key id : String) (gauge : GaugeVec) (registry : library.Registry)
        → ((k i : String)
            → D k i
            → found pump.collectors k i ≡ none
            → (key == k && id == i) ≡ false
            → contains (registered_names registry) (build_fq_name (subsystem_of k) i) ≡ false)
        → IsFree (registered library pump key id gauge registry)
    registered-IsFree pump key id gauge registry others k i d e =
        by_names (key == k && id == i) refl
          (sym (found-stored pump.collectors key id gauge k i) ∙ e)
      where
        by_names :
            (b : Bool)
            → (key == k && id == i) ≡ b
            → (if b then some gauge else found pump.collectors k i) ≡ none
            → contains (registered_names registry) (build_fq_name (subsystem_of k) i) ≡ false
        by_names true e' h = cc
        by_names false e' h = others k i d h e'

    -- A gauge that is set and stored
    gauge-IsUpdated :
        (pump : Pump library) (registry : library.Registry) (key id : String) (gauge : GaugeVec)
        (l : List String) (f : Float)
        → IsShaped library laws pump
        → labels gauge ≡ names library laws key
        → same_length l (names library laws key) ≡ true
        → ((m : List String) → value_at gauge m ≡ reading library laws pump key id m)
        → ((k i : String)
            → D k i
            → found pump.collectors k i ≡ none
            → (key == k && id == i) ≡ false
            → contains (registered_names registry) (build_fq_name (subsystem_of k) i) ≡ false)
        → Gives
            (library.set_gauge gauge l f)
            (λ g. IsUpdated pump key id l f (registered library pump key id g registry))
    gauge-IsUpdated pump registry key id gauge l f shaped named fits before others =
        Gives-weaken _ _ (library.set_gauge gauge l f) weakened
          (set_gauge-value_at gauge l f (subst (λ ns. same_length l ns ≡ true) (sym named) fits))
      where
        weakened :
            (g : GaugeVec)
            → (labels g ≡ labels gauge)
              × ((m : List String)
                  → value_at g m ≡ (if same_labels l m then some f else value_at gauge m))
            → IsUpdated pump key id l f (registered library pump key id g registry)
        weakened g h = (
          stored-IsShaped library laws pump key id g (h.0 ∙ named) shaped,
          registered-IsFree pump key id g registry others,
          stored-reading library laws pump key id g l f
              (λ m. h.1 m ∙ ap (λ o. if same_labels l m then some f else o) (before m)),
        )

    module _ (nameable : IsNameable D) where
      made_name :
          (key id : String)
          → full_name (library.new_gauge_vec (subsystem_of key) id (names library laws key))
            ≡ build_fq_name (subsystem_of key) id
      made_name key id = full_name-new_gauge_vec (subsystem_of key) id (names library laws key)

      -- Other names are free when one has been taken.
      others_free :
          (pump : Pump library) (key id : String) (taken : List String)
          → D key id
          → IsFree pump
          → taken
            ≡ full_name (library.new_gauge_vec (subsystem_of key) id (names library laws key))
              ∷ registered_names pump.registry
          → (k i : String) → D k i
          → found pump.collectors k i ≡ none
          → (key == k && id == i) ≡ false
          → contains taken (build_fq_name (subsystem_of k) i) ≡ false
      others_free pump key id taken d free e k i d' new other =
          ap (λ ns. contains ns (build_fq_name (subsystem_of k) i)) e ∙ by_name _ refl
        where
          mine : String
          mine = full_name (library.new_gauge_vec (subsystem_of key) id (names library laws key))

          same : mine == build_fq_name (subsystem_of k) i ≡ true → (key ≡ k) × (id ≡ i)
          same h =
              nameable.one_name key id k i d d'
                (sym (made_name key id) ∙ (eq_iff mine (build_fq_name (subsystem_of k) i)).0 h)

          by_name :
              (b : Bool)
              → mine == build_fq_name (subsystem_of k) i ≡ b
              → (b || contains (registered_names pump.registry) (build_fq_name (subsystem_of k) i))
                ≡ false
          by_name false h = free k i d' new
          by_name true h =
              let (a, b) = same h in
              let ea : key == k ≡ true = (eq_iff key k).1 a in
              let eb : id == i ≡ true = (eq_iff id i).1 b in
              let both : (key == k && id == i) ≡ true = ap (λ x. x && id == i) ea ∙ eb in cc

      with_gauge-IsUpdated :
          (pump : Pump library) (key id : String) (l : List String) (f : Float)
          (o : Option GaugeVec)
          → D key id
          → IsShaped library laws pump
          → IsFree pump
          → same_length l (names library laws key) ≡ true
          → found pump.collectors key id ≡ o
          → Gives
              (with_gauge library key (subsystem_of key) (names library laws key) pump id l f o)
              (IsUpdated pump key id l f)
      with_gauge-IsUpdated pump key id l f (some g) d shaped free fits e =
          Gives-bind (λ g'. IsUpdated pump key id l f (stored library pump key id g'))
            (IsUpdated pump key id l f) (library.set_gauge g l f) _
            (gauge-IsUpdated pump pump.registry key id g l f shaped (shaped key id g e) fits
              (λ m. ap (λ o. o >>= λ g. value_at g m) (sym e)) λ k i d' new other. free k i d' new)
            λ g' _ h. h
      with_gauge-IsUpdated pump key id l f none d shaped free fits e =
          let made = library.new_gauge_vec (subsystem_of key) id (names library laws key) in
          Gives-bind (λ r. registered_names r ≡ full_name made ∷ registered_names pump.registry)
            (IsUpdated pump key id l f) (library.register pump.registry made) _
            (register-registered_names pump.registry made (nameable.valid key id d)
              (ap (contains (registered_names pump.registry)) (made_name key id) ∙ free key id d e))
            λ registry _ taken.
              Gives-bind
                (λ g. IsUpdated pump key id l f (registered library pump key id g registry))
                (IsUpdated pump key id l f) (library.set_gauge made l f) _
                (gauge-IsUpdated pump registry key id made l f shaped
                  (labels-new_gauge_vec (subsystem_of key) id (names library laws key)) fits
                  (λ m.
                    value_at-new_gauge_vec (subsystem_of key) id (names library laws key) m
                    ∙ ap (λ o. o >>= λ g. value_at g m) (sym e))
                  (others_free pump key id (registered_names registry) d free taken))
                λ g' _ h. h

      pub do_gauge-IsUpdated :
          (pump : Pump library) (key : String) (id : String) (l : List String) (f : Float)
          → D key id
          → IsShaped library laws pump
          → IsFree pump
          → same_length l (names library laws key) ≡ true
          → Gives
              (do_gauge library key (subsystem_of key) (names library laws key) pump id l f)
              (IsUpdated pump key id l f)
      unfolding do_gauge
      do_gauge-IsUpdated pump key id l f d shaped free fits =
          with_gauge-IsUpdated pump key id l f _ d shaped free fits
            (sym (get-or_empty (Dict.get pump.collectors key) id))
