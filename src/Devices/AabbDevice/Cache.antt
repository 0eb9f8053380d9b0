-- ===== src/Devices/AabbDevice/Cache.antt =====
-- The cache of published properties: what an observer sees of it.
use rethink.Common.{
  ◌≡◌, refl, sym, ap, ◌∙◌, ◌≢◌, inl, inr, true, false, Option, none, some, List, [], ◌∷◌, arith,
  if◌then◌else◌, Bool-cases, split_if,
}
use rethink.Mqtt.Topic.{Text, text_eq}
use rethink.Mqtt.Topic.Matching.{text_eq→eq, text_eq_refl}
use rethink.Mqtt.Table.{lookup, lookup-put}
use rethink.Devices.TlvDevice.{Value, string_value, number_value}
use rethink.Devices.AabbDevice.{
  AabbOutput, frame, published, AabbDevice, same_value, is_cached, publish_property, publish_each,
}

-- What an observer last saw of a property.
unfoldable pub last_published : Text → List AabbOutput → Option Value
last_published prop [] = none
last_published prop (frame bytes ∷ out) = last_published prop out
last_published prop (published name value ∷ out) =
    if text_eq name prop then some value else last_published prop out

-- No publication tells an observer what was already the last word.
unfoldable pub IsNews : List AabbOutput → Type 0
IsNews [] = Unit
IsNews (frame bytes ∷ out) = IsNews out
IsNews (published name value ∷ out) = (last_published name out ≢ some value) × IsNews out

-- The cache reads as the observer.
abbrev pub IsSeen : AabbDevice → Type 0
IsSeen device =
    ((prop : Text) → lookup prop device.publish_cache ≡ last_published prop device.out)
    × IsNews device.out

-- The last of the reports on a property, or what was there before them.
unfoldable pub last_report : Text → List (Text × Value) → Option Value → Option Value
last_report prop [] before = before
last_report prop ((name, value) ∷ reports) before =
    last_report prop reports (if text_eq name prop then some value else before)

same_value→eq : (a b : Value) → same_value a b ≡ true → a ≡ b
same_value→eq (string_value s) (string_value t) h = ap string_value (text_eq→eq s t h)
same_value→eq (number_value m) (number_value n) h = ap number_value (ground arith)
same_value→eq (string_value s) (number_value n) h = cc
same_value→eq (number_value m) (string_value t) h = cc

same_value_refl : (a : Value) → same_value a a ≡ true
same_value_refl (string_value s) = text_eq_refl s
same_value_refl (number_value n) = ground arith

is_cached→eq : (old : Option Value) (value : Value) → is_cached old value ≡ true → old ≡ some value
is_cached→eq none value h = cc
is_cached→eq (some old) value h = ap some (same_value→eq old value h)

is_cached_apart :
    (old : Option Value) (value : Value) → is_cached old value ≡ false → old ≢ some value
is_cached_apart old value h e =
    let same : is_cached old value ≡ true = rw e (same_value_refl value) in cc

-- One report, on the observer's side.
publish_property_lem :
    (name : Text) (value : Value) (device : AabbDevice)
    → IsSeen device
    → IsSeen (publish_property name value device)
      × ((prop : Text)
          → last_published prop (publish_property name value device).out
            ≡ (if text_eq name prop then some value else last_published prop device.out))
unfolding publish_property last_published IsNews
publish_property_lem name value device (seen, news) =
    let P : AabbDevice → Type 0 = λ r.
      IsSeen r
      × ((prop : Text)
          → last_published prop r.out
            ≡ (if text_eq name prop then some value else last_published prop device.out)) in
    split_if P (is_cached (lookup name device.publish_cache) value) _ _
      (λ e. (
        (seen, news),
        λ prop. elim (Bool-cases (text_eq name prop)) [
          | inl same ↦ rw same (
              rw (← text_eq→eq name prop same)
                (sym (seen name) ∙ is_cached→eq (lookup name device.publish_cache) value e))
          | inr other ↦ rw other refl
        ],
      ))
      (λ e. (
        (
          λ prop.
              lookup-put name prop value device.publish_cache
              ∙ ap (λ o. if text_eq name prop then some value else o) (seen prop),
          (λ f. is_cached_apart (lookup name device.publish_cache) value e (seen name ∙ f), news),
        ),
        λ prop. refl,
      ))

-- Whatever is reported, from a device whose cache agrees with what was published: for each property the
-- observer ends up with the last report, every publication was a change for it, and the cache agrees
-- again.
pub publish_each-last_report :
    (reports : List (Text × Value)) (device : AabbDevice)
    → IsSeen device
    → IsSeen (publish_each reports device)
      × ((prop : Text)
          → last_published prop (publish_each reports device).out
            ≡ last_report prop reports (last_published prop device.out))
unfolding publish_each last_report
publish_each-last_report [] device h = (h, λ prop. refl)
publish_each-last_report ((name, value) ∷ reports) device h =
    let (next, told) = publish_property_lem name value device h in
    let (after, last) =
      publish_each-last_report reports (publish_property name value device) next in
    (after, λ prop. last prop ∙ ap (last_report prop reports) (told prop))
