-- ===== src/Tests/PrometheusPump.antt =====
-- cmd/prometheuspump: gauges over lists, which are as the pump relies on; runs with them, and an
-- instance of the theorem.
use i_drac_telemetry_referen.Common.{
  ℕ, Bool, true, false, ◌≡◌, ◌∙◌, refl, sym, ap, subst, Option, none, some, List, [], ◌∷◌, String,
  ◌⊎◌, inl, inr, All, if◌then◌else◌, arith,
}
use i_drac_telemetry_referen.Common.Ascii.{without_spaces, contains}
use i_drac_telemetry_referen.Common.Dict
use i_drac_telemetry_referen.Common.Text.{◌==◌, append, eq_iff, eq_refl}
use i_drac_telemetry_referen.Json.Results.{Gives}
use i_drac_telemetry_referen.Databus.Group.{DataValue}
use i_drac_telemetry_referen.PrometheusPump.{Library, Pump, handle_values}
use i_drac_telemetry_referen.PrometheusPump.Gauges.{GaugeLaws, same_labels, same_length, reading}
use i_drac_telemetry_referen.PrometheusPump.Latest.{
  latest, key_of, IsApart, IsSound, handle_values-latest,
}
use i_drac_telemetry_referen.PrometheusPump.Names.{IsNameable, subsystem_of}
use i_drac_telemetry_referen.Databus

same_labels_refl : (l : List String) → same_labels l l ≡ true
unfolding same_labels
same_labels_refl [] = refl
same_labels_refl (x ∷ xs) = rw (eq_refl x) (same_labels_refl xs)

same_labels→eq : (l k : List String) → same_labels l k ≡ true → l ≡ k
unfolding same_labels
same_labels→eq [] [] h = refl
same_labels→eq (x ∷ xs) (y ∷ ys) h = ground (arith, eq_iff x y, same_labels→eq xs ys)
same_labels→eq [] (y ∷ ys) h = cc
same_labels→eq (x ∷ xs) [] h = cc

-- The names of the labels, and the values that are set for theirs
record Vec : Type 0 where
  full_name : String
  labels : List String
  series : List (List String × ℕ)

unfoldable set_series : List (List String × ℕ) → List String → ℕ → List (List String × ℕ)
unfolding same_labels
set_series [] l f = (l, f) ∷ []
set_series ((k, g) ∷ s) l f = if same_labels k l then (l, f) ∷ s else (k, g) ∷ set_series s l f

unfoldable series_at : List (List String × ℕ) → List String → Option ℕ
unfolding same_labels
series_at [] l = none
series_at ((k, f) ∷ s) l = if same_labels k l then some f else series_at s l

series_at-set_series :
    (s : List (List String × ℕ)) (k : List String) (f : ℕ) (l : List String)
    → series_at (set_series s k f) l ≡ (if same_labels k l then some f else series_at s l)
unfolding series_at set_series
series_at-set_series [] k f l = refl
series_at-set_series ((j, g) ∷ s) k f l =
    by_labels (same_labels j k) refl (series_at-set_series s k f l)
  where
    exchanged :
        (bk bj : Bool) (o o' : Option ℕ)
        → (bk ≡ true → bj ≡ true → ⊥)
        → o ≡ (if bk then some f else o')
        → (if bj then some g else o) ≡ (if bk then some f else if bj then some g else o')
    exchanged true true o o' apart e = absurd (apart refl refl)
    exchanged true false o o' apart e = e
    exchanged false true o o' apart e = refl
    exchanged false false o o' apart e = e

    collapsed :
        (b : Bool) (o : Option ℕ)
        → (if b then some f else o) ≡ (if b then some f else if b then some g else o)
    collapsed true o = refl
    collapsed false o = refl

    apart : same_labels j k ≡ false → same_labels k l ≡ true → same_labels j l ≡ true → ⊥
    apart e hk hj =
        let same =
          subst (λ z. same_labels j z ≡ true) (same_labels→eq j l hj ∙ sym (same_labels→eq k l hk))
            (same_labels_refl j) in
        cc

    by_labels :
        (b : Bool)
        → same_labels j k ≡ b
        → series_at (set_series s k f) l ≡ (if same_labels k l then some f else series_at s l)
        → series_at (if b then (k, f) ∷ s else (j, g) ∷ set_series s k f) l
          ≡ (if same_labels k l then some f else if same_labels j l then some g else series_at s l)
    by_labels true e ih =
        let equal = same_labels→eq j k e in
        collapsed (same_labels k l) (series_at s l)
        ∙ ap
            (λ z.
              if same_labels k l then some f else if same_labels z l then some g else series_at s l)
            (sym equal)
    by_labels false e ih = exchanged (same_labels k l) (same_labels j l) _ _ (apart e) ih

unfoldable set_vec : Vec → List String → ℕ → Option Vec
unfolding set_series same_length
set_vec gauge l f =
    if same_length l gauge.labels
    then some (record gauge { series = set_series gauge.series l f })
    else none

abbrev names_of : List Vec → List String
names_of [] = []
names_of (g ∷ gs) = g.full_name ∷ names_of gs

-- A registry, which takes a gauge under a new name
abbrev registered : List Vec → Vec → Bool → Option (List Vec)
registered gauges gauge true = none
registered gauges gauge false = some (gauge ∷ gauges)

abbrev build_name : String → String → String
build_name subsystem name = if subsystem == "" then name else append subsystem (append "_" name)

abbrev library : Library
library = record {
  Float = ℕ;
  parse_float = λ s. if s == "42" then (42, false) else (0, true);
  one = 1;
  GaugeVec = Vec;
  new_gauge_vec =
      λ subsystem name l. record { full_name = build_name subsystem name; labels = l; series = [] };
  set_gauge = set_vec;
  Registry = List Vec;
  register = λ gauges g. registered gauges g (Databus.contains (names_of gauges) g.full_name);
}

set_vec-series_at :
    (g : Vec) (l : List String) (f : ℕ)
    → same_length l g.labels ≡ true
    → Gives (set_vec g l f) (λ g'.
      (g'.labels ≡ g.labels)
      × ((m : List String)
          → series_at g'.series m ≡ (if same_labels l m then some f else series_at g.series m)))
unfolding set_vec
set_vec-series_at g l f fits = rw fits (refl, λ m. series_at-set_series g.series l f m)

takes_new :
    (gauges : List Vec) (g : Vec)
    → true ≡ true
    → Databus.contains (names_of gauges) g.full_name ≡ false
    → Gives
        (registered gauges g (Databus.contains (names_of gauges) g.full_name))
        (λ r. names_of r ≡ g.full_name ∷ names_of gauges)
takes_new gauges g valid new = rw new refl

abbrev laws : GaugeLaws library
unfolding series_at
laws = record {
  labels = λ g. g.labels;
  value_at = λ g l. series_at g.series l;
  labels-new_gauge_vec = λ subsystem name l. refl;
  value_at-new_gauge_vec = λ subsystem name l m. refl;
  set_gauge-value_at = set_vec-series_at;
  build_fq_name = build_name;
  full_name = λ g. g.full_name;
  is_valid = λ g. true;
  registered_names = names_of;
  full_name-new_gauge_vec = λ subsystem name l. refl;
  register-registered_names = takes_new;
}

abbrev empty : Pump library
empty = record { collectors = []; registry = [] }

abbrev value : String → String → DataValue
value context text = record {
  id = "RPM";
  context = context;
  label = "";
  value = text;
  system = "TAG1";
  host_name = "host";
  timestamp = "";
}

-- A gauge of a device, one of a context, and a later value of the first
abbrev values : List DataValue
values = value "Fan.1" "Up" ∷ value "Power Supply" "42" ∷ value "Fan.1" "42" ∷ []

-- A gauge of a device is refused where one of no context has its name.
same_name : handle_values library empty (value "" "42" ∷ value "Fan.1" "42" ∷ []) ≡ none
unfolding handle_values set_vec append
same_name = refl

-- A context that is FQDD but for its spaces has the labels of devices.
context_fqdd : handle_values library empty (value "Fan.1" "42" ∷ value "FQ DD" "42" ∷ []) ≡ none
unfolding handle_values set_vec append
context_fqdd = refl

-- The gauges of the values
abbrev Named : String → String → Type 0
Named k i = ((k ≡ "FQDD") ⊎ (k ≡ "PowerSupply")) × (i ≡ "RPM")

names_differ :
    (k i k' i' : String)
    → Named k i
    → Named k' i'
    → build_name (subsystem_of library laws k) i ≡ build_name (subsystem_of library laws k') i'
    → (k ≡ k') × (i ≡ i')
unfolding append
names_differ k i k' i' (inl e, r) (inl e', r') h = (e ∙ sym e', r ∙ sym r')
names_differ k i k' i' (inr e, r) (inr e', r') h = (e ∙ sym e', r ∙ sym r')
names_differ k i k' i' (inl e, r) (inr e', r') h =
    let both : "RPM" ≡ "PowerSupply_RPM" =
      sym (ap (build_name "") r)
      ∙ ap (λ z. build_name (subsystem_of library laws z) i) (sym e)
      ∙ h
      ∙ ap (λ z. build_name (subsystem_of library laws z) i') e'
      ∙ ap (build_name "PowerSupply") r' in
    cc
names_differ k i k' i' (inr e, r) (inl e', r') h =
    let both : "PowerSupply_RPM" ≡ "RPM" =
      sym (ap (build_name "PowerSupply") r)
      ∙ ap (λ z. build_name (subsystem_of library laws z) i) (sym e)
      ∙ h
      ∙ ap (λ z. build_name (subsystem_of library laws z) i') e'
      ∙ ap (build_name "") r' in
    cc

nameable : IsNameable library laws Named
unfolding laws
nameable = record { valid = λ k i d. refl; one_name = names_differ }

empty-IsSound : IsSound library laws Named nameable empty
unfolding laws Dict.get
empty-IsSound = (λ k i g e. cc, λ k i d e. refl)

values-IsApart : All (IsApart library laws) values
unfolding without_spaces contains
values-IsApart = (refl, (refl, (refl, tt)))

values-Named : All (λ v. Named (key_of library laws v) v.id) values
unfolding without_spaces contains
values-Named = ((inl refl, refl), ((inr refl, refl), ((inl refl, refl), tt)))

handle_values-latest_example : Gives (handle_values library empty values) (λ pump.
    IsSound library laws Named nameable pump
    × ((k i : String) (m : List String)
        → reading library laws pump k i m
          ≡ latest library laws values k i m (reading library laws empty k i m)))
handle_values-latest_example =
    handle_values-latest library laws Named nameable empty values empty-IsSound values-IsApart
      values-Named
