-- ===== src/Redfish/Index.antt =====
-- The bounds of an access by index.
use i_drac_telemetry_referen.Common.{
  ℕ, zero, suc, ◌+◌, ◌<◌, ◌≤◌, true, false, ◌≡◌, refl, ap, ◌∙◌, none, some, List, [], ◌∷◌, ◌++◌,
  String, arith, length, leb, if◌then◌else◌,
}
use i_drac_telemetry_referen.Json.{Json, Items, arr}
use i_drac_telemetry_referen.Redfish.{
  RedfishPayload, Outcome, value, failed, panics, member, elements, elements_of, members_name,
  at_index, resolve, resolve_found, by_index, in_array, get_property_by_index, get_event_by_index,
  events_name,
}

at_index-element :
    (before : List Json) (x : Json) (after : List Json)
    → at_index (before ++ x ∷ after) (length before) ≡ value x
unfolding at_index
at_index-element [] x after = refl
at_index-element (b ∷ before) x after = at_index-element before x after

at_index-end : (xs : List Json) → at_index xs (length xs) ≡ panics
unfolding at_index
at_index-end [] = refl
at_index-end (x ∷ xs) = at_index-end xs

at_index-beyond : (xs : List Json) (i : ℕ) → length xs ≤ i → at_index xs i ≡ panics
unfolding at_index
at_index-beyond [] i h = refl
at_index-beyond (x ∷ xs) zero h = absurd (omega arith)
at_index-beyond (x ∷ xs) (suc i) h = at_index-beyond xs i (omega arith)

leb-true : (a b : ℕ) → a ≤ b → leb a b ≡ true
leb-true a b h = ground arith

leb-false : (a b : ℕ) → b < a → leb a b ≡ false
leb-false a b h = ground arith

length-before :
    (before : List Json) (x : Json) (after : List Json)
    → length before ≤ length (before ++ x ∷ after)
length-before [] x after = omega arith
length-before (b ∷ before) x after = omega (arith, length-before before x after)

module _ (get_uri : String → Outcome RedfishPayload) (r : RedfishPayload) where
  module _ (plain : member r.object members_name ≡ none) (xs : List Json)
      (holds : elements_of r.array ≡ xs) where
    by_array : (i : ℕ) → get_property_by_index get_uri r i ≡ in_array get_uri xs i
    unfolding get_property_by_index
    by_array i = ap (λ o. by_index get_uri r o i) plain ∙ ap (λ ys. in_array get_uri ys i) holds

  -- An array that is no collection, at an index: inside, the payload of the element; just past the
  -- end, a panic, since the test lets the length pass; further on, an error.
  pub get_property_by_index-array :
      (plain : member r.object members_name ≡ none) (before after : List Json) (x : Json)
      (holds : elements_of r.array ≡ before ++ x ∷ after)
      → (get_property_by_index get_uri r (length before) ≡ resolve get_uri x)
        × (get_property_by_index get_uri r (length (before ++ x ∷ after)) ≡ panics)
        × ((k : ℕ)
            → get_property_by_index get_uri r (length (before ++ x ∷ after) + suc k) ≡ failed)
  get_property_by_index-array plain before after x holds =
      let xs = before ++ x ∷ after in
      (
        by_array plain xs holds (length before)
            ∙ ap (λ b. if b then resolve_found get_uri (at_index xs (length before)) else failed)
                (leb-true (length before) (length xs) (length-before before x after))
            ∙ ap (resolve_found get_uri) (at_index-element before x after),
        by_array plain xs holds (length xs)
            ∙ ap (λ b. if b then resolve_found get_uri (at_index xs (length xs)) else failed)
                (leb-true (length xs) (length xs) (omega arith))
            ∙ ap (resolve_found get_uri) (at_index-end xs),
        λ k.
            by_array plain xs holds (length xs + suc k)
            ∙ ap
                (λ b. if b then resolve_found get_uri (at_index xs (length xs + suc k)) else failed)
                (leb-false (length xs + suc k) (length xs) (omega arith)),
      )

  -- A collection, at an index: inside its members, the payload of the member; past them, a panic.
  pub get_property_by_index-collection :
      (before after : List Json) (x : Json) (items : Items)
      (collection : member r.object members_name ≡ some (arr items))
      (holds : elements items ≡ before ++ x ∷ after)
      → (get_property_by_index get_uri r (length before) ≡ resolve get_uri x)
        × ((k : ℕ) → get_property_by_index get_uri r (length (before ++ x ∷ after) + k) ≡ panics)
  unfolding get_property_by_index
  get_property_by_index-collection before after x items collection holds = (
    ap (λ o. by_index get_uri r o (length before)) collection
        ∙ ap (λ ys. resolve_found get_uri (at_index ys (length before))) holds
        ∙ ap (resolve_found get_uri) (at_index-element before x after),
    λ k.
        ap (λ o. by_index get_uri r o (length (before ++ x ∷ after) + k)) collection
        ∙ ap (λ ys. resolve_found get_uri (at_index ys (length (before ++ x ∷ after) + k))) holds
        ∙ ap (resolve_found get_uri) (
            at_index-beyond (before ++ x ∷ after) (length (before ++ x ∷ after) + k) (omega arith)),
  )

  -- The same for the events of a payload, inside them.
  pub get_event_by_index-element :
      (before after : List Json) (x : Json) (items : Items)
      → member r.object events_name ≡ some (arr items)
      → elements items ≡ before ++ x ∷ after
      → get_event_by_index get_uri r (length before) ≡ resolve get_uri x
  unfolding get_event_by_index
  get_event_by_index-element before after x items collection holds =
      ap (λ o. by_index get_uri r o (length before)) collection
      ∙ ap (λ ys. resolve_found get_uri (at_index ys (length before))) holds
      ∙ ap (resolve_found get_uri) (at_index-element before x after)
