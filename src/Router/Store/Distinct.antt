-- ===== src/Router/Store/Distinct.antt =====
-- Entries of which no two have the same address or the same device.
use mathlib.Core.Path.{subst}
use rethink.Common.{
  ◌≡◌, refl, sym, ap, ◌∙◌, Bool, true, false, not, ◌&&◌, ◌||◌, Option, none, some, List, [], ◌∷◌,
  ◌++◌, arith, split_if, split_option,
}
use rethink.Mqtt.Topic.{Text, text_eq}
use rethink.Mqtt.Topic.Matching.{text_eq_apart}
use rethink.Router.Store.{RouterDeviceEntry, find_entry, some_entry, has_device_id, has_ip}

-- Whether an entry has that device, if it is one.
abbrev pub has_id : Option Text → RouterDeviceEntry → Bool
has_id none entry = false
has_id (some id) entry = has_device_id id entry

-- No entry of a list has the address or the device of this one.
abbrev pub apart : RouterDeviceEntry → List RouterDeviceEntry → Bool
apart entry entries =
    not (some_entry (has_ip entry.ip) entries) && not (some_entry (has_id entry.device_id) entries)

abbrev pub IsDistinct : List RouterDeviceEntry → Type 0
IsDistinct [] = Unit
IsDistinct (entry ∷ entries) = (apart entry entries ≡ true) × IsDistinct entries

some_entry-insert :
    (test : RouterDeviceEntry → Bool) (before : List RouterDeviceEntry) (entry : RouterDeviceEntry)
    (after : List RouterDeviceEntry)
    → some_entry test (before ++ (entry ∷ after))
      ≡ (test entry || some_entry test (before ++ after))
some_entry-insert test [] entry after = refl
some_entry-insert test (first ∷ before) entry after =
    let more = some_entry-insert test before entry after in ground (arith, more)

four : (x y z w : Bool) → (not (x || y) && not (z || w)) ≡ (not x && not z && (not y && not w))
four true y z w = refl
four false y true w = ground arith
four false y false w = refl

pub apart-insert :
    (first : RouterDeviceEntry) (before : List RouterDeviceEntry) (entry : RouterDeviceEntry)
    (after : List RouterDeviceEntry)
    → apart first (before ++ (entry ∷ after)) ≡ (
        not (has_ip first.ip entry)
        && not (has_id first.device_id entry)
        && apart first (before ++ after))
apart-insert first before entry after =
    rw
      (
        some_entry-insert (has_ip first.ip) before entry after,
        some_entry-insert (has_id first.device_id) before entry after,
      )
      (four (has_ip first.ip entry) (some_entry (has_ip first.ip) (before ++ after))
        (has_id first.device_id entry) (some_entry (has_id first.device_id) (before ++ after)))

has_id_apart :
    (a b : Option Text) (e f : RouterDeviceEntry)
    → e.device_id ≡ a
    → f.device_id ≡ b
    → has_id a f ≡ false
    → has_id b e ≡ false
has_id_apart a none e f p q h = refl
has_id_apart none (some id) e f p q h = rw p refl
has_id_apart (some own) (some id) e f p q h =
    let read : text_eq id own ≡ false = rw q at h in rw p (text_eq_apart id own read)

-- If one entry has nothing of another, the other has nothing of it.
pub swap_apart :
    (e f : RouterDeviceEntry)
    → has_ip e.ip f ≡ false
    → has_id e.device_id f ≡ false
    → (has_ip f.ip e ≡ false) × (has_id f.device_id e ≡ false)
swap_apart e f p q =
    (text_eq_apart f.ip e.ip p, has_id_apart e.device_id f.device_id e f refl refl q)

pub insert-IsDistinct :
    (before : List RouterDeviceEntry) (entry : RouterDeviceEntry) (after : List RouterDeviceEntry)
    → IsDistinct (before ++ after)
    → apart entry (before ++ after) ≡ true
    → IsDistinct (before ++ (entry ∷ after))
insert-IsDistinct [] entry after h new = (new, h)
insert-IsDistinct (first ∷ before) entry after (old, h) new =
    let (p, q) = swap_apart entry first (ground (arith, new)) (ground (arith, new)) in
    (
      apart-insert first before entry after ∙ rw (p, q, old) refl,
      insert-IsDistinct before entry after h (ground (arith, new)),
    )

pub remove-IsDistinct :
    (before : List RouterDeviceEntry) (entry : RouterDeviceEntry) (after : List RouterDeviceEntry)
    → IsDistinct (before ++ (entry ∷ after))
    → IsDistinct (before ++ after) × (apart entry (before ++ after) ≡ true)
remove-IsDistinct [] entry after (new, h) = (h, new)
remove-IsDistinct (first ∷ before) entry after (old, h) =
    let (rest, new) = remove-IsDistinct before entry after h in
    let read = sym (apart-insert first before entry after) ∙ old in
    let (p, q) = swap_apart first entry (ground (arith, read)) (ground (arith, read)) in
    ((ground (arith, read), rest), rw (p, q) new)

-- What was found stands in the list and passes the test.
abbrev pub IsFound :
    (RouterDeviceEntry → Bool)
    → List RouterDeviceEntry
    → Option (List RouterDeviceEntry × RouterDeviceEntry × List RouterDeviceEntry)
    → Type 0
IsFound test entries none = Unit
IsFound test entries (some (before, entry, after)) =
    (entries ≡ before ++ (entry ∷ after)) × (test entry ≡ true)

pub find_entry-IsFound :
    (test : RouterDeviceEntry → Bool) (entries : List RouterDeviceEntry)
    → IsFound test entries (find_entry test entries)
unfolding find_entry
find_entry-IsFound test [] = tt
find_entry-IsFound test (first ∷ entries) =
    let more = find_entry-IsFound test entries in
    split_if (IsFound test (first ∷ entries)) (test first) _ _ (λ e. (refl, e))
      (λ e.
        split_option (IsFound test (first ∷ entries)) (find_entry test entries) _ _ (λ f. tt)
          (λ found f.
            let (same, passed) = subst (IsFound test entries) f more in
            (ap (λ rest. first ∷ rest) same, passed)))
