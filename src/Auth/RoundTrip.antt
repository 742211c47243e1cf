-- ===== src/Auth/RoundTrip.antt =====
-- Services and service items are read back from their documents.
use i_drac_telemetry_referen.Common.{
  ◌≡◌, refl, sym, ap, ◌∙◌, Option, none, some, [], ◌∷◌, ◌++◌, String, arith, append-nil,
  append_assoc,
}
use i_drac_telemetry_referen.Common.Ascii.{to_lower, lower}
use i_drac_telemetry_referen.Common.Dict
use i_drac_telemetry_referen.Common.Dict.{Dict}
use i_drac_telemetry_referen.Auth.{
  IntText, Service, ServiceItem, map_fields, read_map, set_map, map_json, marshal_service,
  marshal_service_item, read_service, read_service_item,
}

-- Each key of the second map is new after the first map and the keys before it.
abbrev Fresh : Dict String → Dict String → Type 0
Fresh before [] = Unit
Fresh before ((k, v) ∷ m) = (Dict.get before k ≡ none) × Fresh (before ++ (k, v) ∷ []) m

-- No key stands twice.
abbrev pub Distinct : Option (Dict String) → Type 0
Distinct none = Unit
Distinct (some m) = Fresh [] m

put_new : (m : Dict String) (k v : String) → Dict.get m k ≡ none → Dict.put m k v ≡ m ++ (k, v) ∷ []
unfolding Dict.get Dict.put
put_new [] k v e = refl
put_new ((j, w) ∷ m) k v e = ground (arith, put_new m k v)

read_map-map_fields :
    (before m : Dict String) → Fresh before m → read_map before (map_fields m) ≡ some (before ++ m)
unfolding read_map map_fields
read_map-map_fields before [] h = ap some (sym (append-nil before))
read_map-map_fields before ((k, v) ∷ m) h =
    ap (λ b. read_map b (map_fields m)) (put_new before k v h.0)
    ∙ read_map-map_fields (before ++ (k, v) ∷ []) m h.1
    ∙ ap some (append_assoc before ((k, v) ∷ []) m)

module _ (ints : IntText) where
  open ints use {print_int, read_int, read-print}

  pub set_map-map_json :
      {A : Type 0} (set : Option (Dict String) → A) (m : Option (Dict String))
      → Distinct m
      → set_map none set (map_json m) ≡ some (set m)
  set_map-map_json set none h = refl
  set_map-map_json set (some m) h = rw (read_map-map_fields [] m h)

  -- A service whose map of secrets names no key twice is read back from its document.
  pub read_service-marshal_service :
      (s : Service) → Distinct s.auth → read_service ints (marshal_service ints s) ≡ some s
  unfolding read_service marshal_service to_lower lower
  read_service-marshal_service s h = rw (read-print s.service_type) (
      rw (read-print s.auth_type)
        (rw (set_map-map_json (λ m. record s { auth = m; state = "" }) s.auth h)))

  -- So is a service item, whose service stands among its fields.
  pub read_service_item-marshal_service_item :
      (si : ServiceItem)
      → Distinct si.service.auth
      → read_service_item ints (marshal_service_item ints si) ≡ some si
  unfolding read_service_item marshal_service_item to_lower lower
  read_service_item-marshal_service_item si h = rw (read-print si.service.service_type) (
      rw (read-print si.service.auth_type) (
        rw (set_map-map_json (λ m. record si.service { auth = m; state = "" }) si.service.auth h)
          (rw (read-print si.timeout))))
