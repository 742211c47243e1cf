-- ===== src/Auth/Replies.antt =====
-- What the authorization client reads: services that are broadcast, and lists in replies.
use i_drac_telemetry_referen.Common.{ℕ, ◌≡◌, refl, ap, ◌⊎◌, Option, some, List, [], ◌∷◌, String}
use i_drac_telemetry_referen.Json.{JsonText, arr}
use i_drac_telemetry_referen.Json.Structs.{items, read_items}
use i_drac_telemetry_referen.Wire.{Envelope}
use i_drac_telemetry_referen.Service.{response}
use i_drac_telemetry_referen.Service.Typed.{Others, texts, values_in, received-texts}
use i_drac_telemetry_referen.Auth.{
  IntText, Service, ServiceItem, empty_service, empty_service_item, marshal_service,
  marshal_service_item, read_service, read_service_item,
}
use i_drac_telemetry_referen.Auth.RoundTrip.{
  Distinct, read_service-marshal_service, read_service_item-marshal_service_item,
}
use i_drac_telemetry_referen.Auth.Client.{
  get_service, get_service_items, get_service_item_with_ip, or_default, only,
}

-- The secrets of a service name no key twice.
abbrev pub IsPlain : Service → Type 0
IsPlain s = Distinct s.auth

module _ (json : JsonText) (fails : ℕ → Option String) (ints : IntText) where
  -- From a queue on which services have been broadcast, among other envelopes that are not of type
  -- service, the client gets exactly the services, in order and as they were sent.
  pub get_service-texts :
      (ms : List (Service ⊎ Envelope))
      → Others empty_service
          (read_service ints)
          json
          fails
          "service"
          (marshal_service ints)
          IsPlain
          ms
      → get_service json fails ints (
          texts empty_service
            (read_service ints)
            json
            fails
            "service"
            (marshal_service ints)
            IsPlain
            ms)
        ≡ values_in empty_service
            (read_service ints)
            json
            fails
            "service"
            (marshal_service ints)
            IsPlain
            ms
  unfolding get_service
  get_service-texts ms h =
      received-texts empty_service (read_service ints) json fails "service" (marshal_service ints)
        IsPlain (read_service-marshal_service ints) ms h

  abbrev pub AllPlain : List ServiceItem → Type 0
  AllPlain [] = Unit
  AllPlain (si ∷ sis) = Distinct si.service.auth × AllPlain sis

  read_items-service_items :
      (sis : List ServiceItem)
      → AllPlain sis
      → read_items (read_service_item ints) (items (marshal_service_item ints) sis) ≡ some sis
  unfolding read_items items
  read_items-service_items [] h = refl
  read_items-service_items (si ∷ sis) h =
      rw (read_service_item-marshal_service_item ints si h.0, read_items-service_items sis h.1)

  get_service_items_lem :
      (sis : List ServiceItem)
      → AllPlain sis
      → get_service_items json fails ints
          (response (some (arr (items (marshal_service_item ints) sis))))
        ≡ sis
  unfolding get_service_items
  get_service_items_lem sis h = ap (or_default json fails ints []) (read_items-service_items sis h)

  -- A reply with a list of service items is read as that list, and the item that is asked for by its
  -- address is the one item of such a list, or an empty one if the list has none or several.
  pub get_service_item_with_ip-only :
      (sis : List ServiceItem)
      → AllPlain sis
      → (get_service_items json fails ints
            (response (some (arr (items (marshal_service_item ints) sis))))
          ≡ sis)
        × (get_service_item_with_ip json fails ints
              (response (some (arr (items (marshal_service_item ints) sis))))
            ≡ elim sis [
              | [] ↦ empty_service_item
              | si ∷ rest ↦ elim rest [ [] ↦ si | _ ∷ _ ↦ empty_service_item ]
            ])
  unfolding get_service_item_with_ip
  get_service_item_with_ip-only [] h =
      (get_service_items_lem [] h, ap (only json fails ints) (get_service_items_lem [] h))
  get_service_item_with_ip-only (si ∷ []) h = (
    get_service_items_lem (si ∷ []) h,
    ap (only json fails ints) (get_service_items_lem (si ∷ []) h),
  )
  get_service_item_with_ip-only (si ∷ sj ∷ rest) h = (
    get_service_items_lem (si ∷ sj ∷ rest) h,
    ap (only json fails ints) (get_service_items_lem (si ∷ sj ∷ rest) h),
  )
