-- ===== src/Router/Store.antt =====
-- The devices of the router and its settings: router/config-store.ts.
pub mod Settings
pub mod Operations
pub mod Distinct
pub mod Consistent
pub mod Kept
pub mod Saved
pub mod Usable
mod Tests
use rethink.Common.{
  ℕ, zero, suc, ◌+◌, ◌-◌, ◌*◌, ◌/◌, ◌%◌, ◌^◌, ◌≤◌, ◌<◌, min, bit_xor, ◌≡◌, refl, sym, ap, ◌∙◌,
  ◌≡⟨◌⟩◌, ◌∎, ◌≢◌, ◌↔◌, ◌⊎◌, inl, inr, Bool, true, false, not, ◌&&◌, ◌||◌, Option, none, some, List,
  [], ◌∷◌, ◌++◌, map, append-nil, append_assoc, arith, ltb, leb, ◌==◌, ==_iff, if◌then◌else◌,
  Bool-cases, Option-cases, split_if, split_option, all_below, all_below_sound, length, get_elem?,
  get_or, take, drop, concat, length-append, length-drop, length-take, take-append_le,
  drop-append_le, take_length, drop_length, All, All-append, All-drop, All-take, drop-get_elem?,
  get_elem?-eq-none, get_elem?_past, drop_past, bit_xor-zero, bit_xor_self, bit_xor-lt,
  bit_xor_bytes, bit_xor_words, bit_xor_comm, bit_xor_cancel, zero-bit_xor,
}
use rethink.Mqtt.Topic.{Text, text_eq, is_empty}

-- `RouterSSHConfig`
pub record RouterSshConfig : Type 0 where
  pub host : Text
  pub port : ℕ
  pub username : Text
  pub password : Text
  pub rethink_ip : Text
  pub host_key_fingerprint : Option Text

pub data Mode : Type 0 where
  dnat local : Mode

pub data EntryPlatform : Type 0 where
  thinq1 thinq2 : EntryPlatform

-- `RouterDeviceEntry`
pub record RouterDeviceEntry : Type 0 where
  pub entry_id : Text
  pub ip : Text
  pub device_id : Option Text
  pub auto_link : Option Bool
  pub detected_name : Option Text
  pub custom_name : Option Text
  pub platform : Option EntryPlatform
  pub mode : Option Mode
  pub dnat_desired : Option Bool

pub record RouterConfig : Type 0 where
  pub router : RouterSshConfig
  pub devices : List RouterDeviceEntry

-- The settings in memory, and those that were last written to the file.
pub record RouterConfigStore : Type 0 where
  pub config : RouterConfig
  pub persisted : RouterConfig

-- What an operation throws.
pub data StoreError : Type 0 where
  invalid_mode invalid_device_ip reserved_ip ip_taken unknown_device already_linked : StoreError
  invalid_router_ip invalid_rethink_ip invalid_port no_username no_password : StoreError
  invalid_fingerprint registered_ip write_failed : StoreError

-- An operation before it saves: it throws, it leaves a configuration to be saved, or it returns without
-- saving.
pub data Change (A : Type 0) : Type 0 where
  refused : StoreError → Change A
  saving : RouterConfig → A → Change A
  returning : RouterConfig → A → Change A

pub data Result (A : Type 0) : Type 0 where
  thrown : StoreError → Result A
  value : A → Result A

-- `save`: the file is written, or the settings go back to those that were.
unfoldable pub commit :
    {A : Type 0} → Bool → RouterConfigStore → Change A → RouterConfigStore × Result A
commit is_written store (refused error) = (store, thrown error)
commit is_written store (returning config a) = (record store { config = config }, value a)
commit is_written store (saving config a) =
    if is_written
    then (record { config = config; persisted = config }, value a)
    else (record { config = store.persisted; persisted = store.persisted }, thrown write_failed)

-- The first entry that passes a test, between those before it and those after it.
unfoldable pub find_entry :
    (RouterDeviceEntry → Bool)
    → List RouterDeviceEntry
    → Option (List RouterDeviceEntry × RouterDeviceEntry × List RouterDeviceEntry)
find_entry test [] = none
find_entry test (entry ∷ entries) =
    if test entry then some ([], entry, entries) else elim (find_entry test entries) [
      | none ↦ none
      | some (before, found, after) ↦ some (entry ∷ before, found, after)
    ]

abbrev pub some_entry : (RouterDeviceEntry → Bool) → List RouterDeviceEntry → Bool
some_entry test [] = false
some_entry test (entry ∷ entries) = test entry || some_entry test entries

-- `item.deviceId === deviceId`
abbrev pub has_device_id : Text → RouterDeviceEntry → Bool
has_device_id id entry = elim entry.device_id [ none ↦ false | some other ↦ text_eq other id ]

abbrev pub has_ip : Text → RouterDeviceEntry → Bool
has_ip ip entry = text_eq entry.ip ip

-- A text that is there and is not empty.
abbrev pub is_given : Option Text → Bool
is_given none = false
is_given (some text) = not (is_empty text)

abbrev pub given_or : Option Text → Text → Text
given_or none default = default
given_or (some text) default = text

abbrev pub dnat_text : Text
dnat_text = b'd' ∷ b'n' ∷ b'a' ∷ b't' ∷ []

abbrev pub local_text : Text
local_text = b'l' ∷ b'o' ∷ b'c' ∷ b'a' ∷ b'l' ∷ []

abbrev pub sha256_text : Text
sha256_text = b'S' ∷ b'H' ∷ b'A' ∷ b'2' ∷ b'5' ∷ b'6' ∷ b':' ∷ []

-- `mode !== 'dnat' && mode !== 'local'`
abbrev pub mode_of : Text → Option Mode
mode_of text =
    if text_eq text dnat_text
    then some dnat
    else if text_eq text local_text
    then some local
    else none

-- What `${...}.trim()`, `isIP` and `Buffer` provide: a text less the white space around it, whether it is
-- an IPv4 address, and a base64 text decoded and encoded again, less its padding.
pub record TextTools : Type 0 where
  pub trim : Text → Text
  pub valid_ipv4 : Text → Bool
  pub recoded : Text → Text

-- `[A-Za-z0-9+/]`
abbrev is_base64_char : ℕ → Bool
is_base64_char c =
    leb b'A' c && leb c b'Z'
    || leb b'a' c && leb c b'z'
    || leb b'0' c && leb c b'9'
    || c == b'+'
    || c == b'/'

abbrev every_base64 : Text → Bool
every_base64 [] = true
every_base64 (c ∷ text) = is_base64_char c && every_base64 text

-- `isHostKeyFingerprint`, on a text.
unfoldable pub is_host_key_fingerprint : TextTools → Text → Bool
is_host_key_fingerprint tools text =
    text_eq (take 7 text) sha256_text
    && length text == 50
    && every_base64 (drop 7 text)
    && text_eq (tools.recoded (drop 7 text)) (drop 7 text)

-- `input.port`: `Number` makes a whole number of it or something else.
pub data Port : Type 0 where
  whole : ℕ → Port
  not_whole : Port

pub record RouterInput : Type 0 where
  pub host : Option Text
  pub port : Option Port
  pub username : Option Text
  pub password : Option Text
  pub rethink_ip : Option Text
  pub host_key_fingerprint : Option Text

abbrev pub port_or : Option Port → ℕ → Port
port_or none current = whole current
port_or (some port) current = port

abbrev pub same_port : Port → ℕ → Bool
same_port (whole n) port = n == port
same_port not_whole port = false

abbrev pub valid_port : Port → Option ℕ
valid_port not_whole = none
valid_port (whole n) = if ltb n 1 || ltb 65535 n then none else some n
