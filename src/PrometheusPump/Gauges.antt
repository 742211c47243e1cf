-- ===== src/PrometheusPump/Gauges.antt =====
-- cmd/prometheuspump/prometheuspump.go: the gauges after a value has been set.
use i_drac_telemetry_referen.Common.{
  Bool, true, false, ◌&&◌, ◌≡◌, ◌∙◌, refl, sym, ap, Option, none, some, List, [], ◌∷◌, String,
  if◌then◌else◌,
}
use i_drac_telemetry_referen.Databus.{contains}
use i_drac_telemetry_referen.Common.Dict
use i_drac_telemetry_referen.Common.Dict.{Dict, get-put}
use i_drac_telemetry_referen.Common.Text.{◌==◌, eq_iff}
use i_drac_telemetry_referen.Json.Structs.{◌>>=◌}
use i_drac_telemetry_referen.Json.Results.{Gives}
use i_drac_telemetry_referen.OtelPump.{or_empty}
use i_drac_telemetry_referen.OtelPump.Grouping.{found, found-put, get-or_empty}
use i_drac_telemetry_referen.PrometheusPump.{Library, Pump, stored}

-- Two lists of values of labels
unfoldable pub same_labels : List String → List String → Bool
same_labels [] [] = true
same_labels (x ∷ xs) (y ∷ ys) = x == y && same_labels xs ys
same_labels _ _ = false

unfoldable pub same_length : List String → List String → Bool
same_length [] [] = true
same_length (x ∷ xs) (y ∷ ys) = same_length xs ys
same_length _ _ = false

pub found-stored {ℓ} :
    {A : Type ℓ} (m : Dict (Dict A)) (x y : String) (a : A) (c i : String)
    → found (Dict.put m x (Dict.put (or_empty (Dict.get m x)) y a)) c i
      ≡ (if x == c && y == i then some a else found m c i)
found-stored m x y a c i =
    found-put m x (Dict.put (or_empty (Dict.get m x)) y a) c i ∙ by_key (x == c) refl
  where
    by_key :
        (b : Bool)
        → x == c ≡ b
        → (if b then Dict.get (Dict.put (or_empty (Dict.get m x)) y a) i else found m c i)
          ≡ (if b && y == i then some a else found m c i)
    by_key false e = refl
    by_key true e =
        get-put (or_empty (Dict.get m x)) y i a
        ∙ ap (λ o. if y == i then some a else o)
            (get-or_empty (Dict.get m x) i ∙ ap (λ z. found m z i) ((eq_iff x c).0 e))

-- What the pump relies on: a gauge has a value for each list of values of its labels that has been
-- set, and the registry takes a valid gauge whose full name it does not have yet.
pub record GaugeLaws (library : Library) : Type 0 where
  pub labels : library.GaugeVec → List String
  pub value_at : library.GaugeVec → List String → Option library.Float
  pub labels-new_gauge_vec :
      (subsystem name : String) (l : List String)
      → labels (library.new_gauge_vec subsystem name l) ≡ l
  pub value_at-new_gauge_vec :
      (subsystem name : String) (l m : List String)
      → value_at (library.new_gauge_vec subsystem name l) m ≡ none
  pub set_gauge-value_at :
      (g : library.GaugeVec) (l : List String) (f : library.Float)
      → same_length l (labels g) ≡ true
      → Gives (library.set_gauge g l f) (λ g'.
        (labels g' ≡ labels g)
        × ((m : List String) → value_at g' m ≡ (if same_labels l m then some f else value_at g m)))
  pub build_fq_name : (subsystem name : String) → String
  pub full_name : library.GaugeVec → String
  pub is_valid : library.GaugeVec → Bool
  pub registered_names : library.Registry → List String
  pub full_name-new_gauge_vec :
      (subsystem name : String) (l : List String)
      → full_name (library.new_gauge_vec subsystem name l) ≡ build_fq_name subsystem name
  pub register-registered_names :
      (registry : library.Registry) (g : library.GaugeVec)
      → is_valid g ≡ true
      → contains (registered_names registry) (full_name g) ≡ false
      → Gives
          (library.register registry g)
          (λ r. registered_names r ≡ full_name g ∷ registered_names registry)

module _ (library : Library) (laws : GaugeLaws library) where
  open library use {Float, GaugeVec}
  open laws use {
    labels, value_at, labels-new_gauge_vec, value_at-new_gauge_vec, set_gauge-value_at,
    build_fq_name, full_name, is_valid, registered_names, full_name-new_gauge_vec,
    register-registered_names,
  }

  -- The value of the gauge of a key and a name, for values of its labels
  abbrev pub reading : Pump library → String → String → List String → Option Float
  reading pump key id l = found pump.collectors key id >>= λ g. value_at g l

  pub stored-reading :
      (pump : Pump library) (key id : String) (gauge : GaugeVec) (l : List String) (f : Float)
      → ((m : List String)
          → value_at gauge m ≡ (if same_labels l m then some f else reading pump key id m))
      → (k i : String) (m : List String)
      → reading (stored library pump key id gauge) k i m
        ≡ (if key == k && (id == i && same_labels l m) then some f else reading pump k i m)
  stored-reading pump key id gauge l f set k i m =
      ap (λ o. o >>= λ g. value_at g m) (found-stored pump.collectors key id gauge k i)
      ∙ by_names (key == k) (id == i) refl refl
    where
      by_names :
          (b c : Bool)
          → key == k ≡ b
          → id == i ≡ c
          → ((if b && c then some gauge else found pump.collectors k i) >>= λ g. value_at g m)
            ≡ (if b && (c && same_labels l m) then some f else reading pump k i m)
      by_names false c e e' = refl
      by_names true false e e' = refl
      by_names true true e e' =
          set m
          ∙ ap (λ o. if same_labels l m then some f else o)
              (ap (λ z. reading pump z id m) ((eq_iff key k).0 e)
                ∙ ap (λ z. reading pump k z m) ((eq_iff id i).0 e'))

  -- The names of the labels are those of the collectors of a key.
  abbrev pub names : String → List String
  names key =
      if key == "FQDD"
      then "ServiceTag" ∷ "HostName" ∷ "FQDD" ∷ []
      else "ServiceTag" ∷ "HostName" ∷ []

  abbrev pub IsShaped : Pump library → Type 0
  IsShaped pump =
      (k i : String) (g : GaugeVec) → found pump.collectors k i ≡ some g → labels g ≡ names k

  pub stored-IsShaped :
      (pump : Pump library) (key id : String) (gauge : GaugeVec)
      → labels gauge ≡ names key
      → IsShaped pump
      → IsShaped (stored library pump key id gauge)
  stored-IsShaped pump key id gauge named shaped k i g e =
      by_names (key == k) (id == i) refl (sym (found-stored pump.collectors key id gauge k i) ∙ e)
    where
      by_names :
          (b c : Bool)
          → key == k ≡ b
          → (if b && c then some gauge else found pump.collectors k i) ≡ some g
          → labels g ≡ names k
      by_names false c e' h = shaped k i g h
      by_names true false e' h = shaped k i g h
      by_names true true e' h =
          let equal : g ≡ gauge = cc in ap labels equal ∙ named ∙ ap names ((eq_iff key k).0 e')
