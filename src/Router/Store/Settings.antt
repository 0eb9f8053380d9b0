-- ===== src/Router/Store/Settings.antt =====
-- The settings of the router: `updateRouter`, `configured` and `recoverHostKeyFingerprint` of
-- router/config-store.ts.
use rethink.Common.{
  ℕ, Bool, false, not, ◌&&◌, ◌||◌, Option, none, some, [], ltb, if◌then◌else◌, leb, ◌==◌, true, ◌∷◌,
}
use rethink.Mqtt.Topic.{Text, text_eq, is_empty}
use rethink.Thinq2.Messages.{
  Json, json_number, Fields, no_fields, with_field, get, object_record, is_text, text_of,
}
use rethink.Router.Store.{
  RouterSshConfig, RouterDeviceEntry, RouterConfig, Change, some_entry, is_given, given_or,
  TextTools, is_host_key_fingerprint, RouterInput, port_or, same_port, valid_port,
  invalid_router_ip, invalid_rethink_ip, invalid_port, no_username, no_password,
  invalid_fingerprint, registered_ip, refused, saving, returning,
}

-- `publicRouter`
pub record PublicRouter : Type 0 where
  pub host : Text
  pub port : ℕ
  pub username : Text
  pub rethink_ip : Text
  pub host_key_fingerprint : Option Text
  pub password_saved : Bool

pub public_router : RouterSshConfig → PublicRouter
public_router router = record {
  host = router.host;
  port = router.port;
  username = router.username;
  rethink_ip = router.rethink_ip;
  host_key_fingerprint = router.host_key_fingerprint;
  password_saved = not (is_empty router.password);
}

abbrev pub is_router_ip : RouterSshConfig → RouterDeviceEntry → Bool
is_router_ip router entry = text_eq entry.ip router.host || text_eq entry.ip router.rethink_ip

module _ (tools : TextTools) where
  -- The settings that `updateRouter` would keep.
  abbrev pub next_router : RouterInput → RouterSshConfig → ℕ → RouterSshConfig
  next_router input current port = record {
    host = tools.trim (given_or input.host current.host);
    port = port;
    username = tools.trim (given_or input.username current.username);
    password = if is_given input.password then given_or input.password [] else current.password;
    rethink_ip = tools.trim (given_or input.rethink_ip current.rethink_ip);
    host_key_fingerprint = elim input.host_key_fingerprint [
      | some text ↦ some (tools.trim text)
      | none ↦
          if text_eq (tools.trim (given_or input.host current.host)) current.host
            && same_port (port_or input.port current.port) current.port
          then current.host_key_fingerprint
          else none
    ];
  }

  abbrev pub bad_fingerprint : Option Text → Bool
  bad_fingerprint none = false
  bad_fingerprint (some text) = not (is_empty text) && not (is_host_key_fingerprint tools text)

  -- The checks after that of the port.
  unfoldable pub accept_router : RouterSshConfig → RouterConfig → Change PublicRouter
  accept_router next config =
      if is_empty next.username
      then refused no_username
      else if is_empty next.password
      then refused no_password
      else if bad_fingerprint next.host_key_fingerprint
      then refused invalid_fingerprint
      else if some_entry (is_router_ip next) config.devices
      then refused registered_ip
      else saving (record config { router = next }) (public_router next)

  -- `updateRouter`
  unfoldable pub update_router : RouterInput → RouterConfig → Change PublicRouter
  update_router input config =
      if not (tools.valid_ipv4 (tools.trim (given_or input.host config.router.host)))
      then refused invalid_router_ip
      else if not
          (tools.valid_ipv4 (tools.trim (given_or input.rethink_ip config.router.rethink_ip)))
      then refused invalid_rethink_ip
      else elim (valid_port (port_or input.port config.router.port)) [
        | none ↦ refused invalid_port
        | some port ↦ accept_router (next_router input config.router port) config
      ]

  -- `hasConnectionSettings` and `configured`
  unfoldable pub has_connection_settings : RouterSshConfig → Bool
  has_connection_settings r =
      tools.valid_ipv4 r.host
      && tools.valid_ipv4 r.rethink_ip
      && not (is_empty r.username)
      && not (is_empty r.password)
      && ltb 0 r.port

  unfoldable pub configured : RouterSshConfig → Bool
  configured r = has_connection_settings r && elim r.host_key_fingerprint [
    | none ↦ false
    | some text ↦ is_host_key_fingerprint tools text
  ]

-- The fields of the request by which a lost fingerprint is restored.
abbrev host_text : Text
host_text = b'h' ∷ b'o' ∷ b's' ∷ b't' ∷ []

abbrev port_text : Text
port_text = b'p' ∷ b'o' ∷ b'r' ∷ b't' ∷ []

abbrev username_text : Text
username_text = b'u' ∷ b's' ∷ b'e' ∷ b'r' ∷ b'n' ∷ b'a' ∷ b'm' ∷ b'e' ∷ []

abbrev password_text : Text
password_text = b'p' ∷ b'a' ∷ b's' ∷ b's' ∷ b'w' ∷ b'o' ∷ b'r' ∷ b'd' ∷ []

abbrev rethink_ip_text : Text
rethink_ip_text = b'r' ∷ b'e' ∷ b't' ∷ b'h' ∷ b'i' ∷ b'n' ∷ b'k' ∷ b'I' ∷ b'p' ∷ []

abbrev pub fingerprint_text : Text
fingerprint_text =
    b'h' ∷ b'o' ∷ b's' ∷ b't' ∷ b'K' ∷ b'e' ∷ b'y' ∷ b'F' ∷ b'i' ∷ b'n' ∷ b'g' ∷ b'e' ∷ b'r' ∷ b'p'
    ∷ b'r' ∷ b'i' ∷ b'n' ∷ b't' ∷ []

abbrev is_known_key : Text → Bool
is_known_key key =
    text_eq key host_text
    || text_eq key port_text
    || text_eq key username_text
    || text_eq key password_text
    || text_eq key rethink_ip_text
    || text_eq key fingerprint_text

abbrev every_known : Fields → Bool
every_known no_fields = true
every_known (with_field key json fields) = is_known_key key && every_known fields

-- A field that is given has to be the current setting.
abbrev agrees : Option Json → Text → Bool
agrees none text = true
agrees (some json) text = is_text (some json) text

abbrev agrees_port : Option Json → ℕ → Bool
agrees_port none port = true
agrees_port (some (json_number n)) port = n == port
agrees_port (some json) port = false

-- The tests of `recoverHostKeyFingerprint` on the request and on the current settings.
unfoldable pub is_recovery : TextTools → Text → Fields → RouterSshConfig → Bool
is_recovery tools fingerprint fields current =
    is_host_key_fingerprint tools fingerprint
    && every_known fields
    && agrees (get host_text fields) current.host
    && agrees_port (get port_text fields) current.port
    && agrees (get username_text fields) current.username
    && agrees (get rethink_ip_text fields) current.rethink_ip
    && agrees (get password_text fields) []
    && tools.valid_ipv4 current.host
    && tools.valid_ipv4 current.rethink_ip
    && ltb 0 current.port
    && leb current.port 65535
    && not (is_empty current.username)
    && not (is_empty current.password)

-- `recoverHostKeyFingerprint`
unfoldable pub recover_host_key_fingerprint : TextTools → Json → RouterConfig → Change Bool
recover_host_key_fingerprint tools input config =
    if is_given config.router.host_key_fingerprint
    then returning config false
    else elim (object_record (some input)) [
      | none ↦ returning config false
      | some fields ↦ elim (text_of (get fingerprint_text fields)) [
        | none ↦ returning config false
        | some fingerprint ↦
            if is_recovery tools fingerprint fields config.router
            then saving
                (record config {
                  router = record config.router { host_key_fingerprint = some fingerprint };
                })
                true
            else returning config false
      ]
    ]
