-- ===== src/Router/Store/Usable.antt =====
-- The router's settings once they were accepted.
use rethink.Common.{
  ℕ, ◌≤◌, ◌≡◌, Bool, true, false, not, ◌&&◌, ◌||◌, Option, some, arith, ltb, split_if, split_option,
}
use rethink.Mqtt.Topic.{is_empty}
use rethink.Router.Store.{
  RouterConfig, some_entry, given_or, TextTools, Port, RouterInput, port_or, valid_port, whole,
  not_whole,
}
use rethink.Router.Store.Settings.{
  PublicRouter, is_router_ip, next_router, bad_fingerprint, accept_router, update_router,
  has_connection_settings,
}
use rethink.Router.Store.Consistent.{Leaves}

valid_port_lem : (port : Port) (n : ℕ) → valid_port port ≡ some n → (ltb 0 n ≡ true) × (n ≤ 65535)
valid_port_lem not_whole n e = cc
valid_port_lem (whole m) n e =
    split_if (λ (r : Option ℕ). r ≡ some n → (ltb 0 n ≡ true) × (n ≤ 65535))
      (ltb m 1 || ltb 65535 m) _ _ (λ f g. cc) (λ f g. ground (arith, g)) e

settings :
    (host ip user password port : Bool)
    → not host ≡ false
    → not ip ≡ false
    → user ≡ false
    → password ≡ false
    → port ≡ true
    → (host && ip && not user && not password && port) ≡ true
settings host ip user password port a b c d e = ground arith

-- Settings with which the router can be reached, on a port that there is, and with a fingerprint, if
-- one is kept, of the form that the router's client compares.
abbrev pub IsUsable : TextTools → RouterConfig → Type 0
IsUsable tools config =
    (has_connection_settings tools config.router ≡ true)
    × (config.router.port ≤ 65535)
    × (bad_fingerprint tools config.router.host_key_fingerprint ≡ false)

-- Settings of the router that are accepted, from whatever is given, suffice for a connection, with a
-- port below 65536 and no fingerprint that is malformed.
pub update_router-IsUsable :
    (tools : TextTools) (input : RouterInput) (config : RouterConfig)
    → Leaves (IsUsable tools) (update_router tools input config)
unfolding update_router accept_router has_connection_settings
update_router-IsUsable tools input config =
    let P = Leaves {A = PublicRouter} (IsUsable tools) in
    split_if P (not (tools.valid_ipv4 (tools.trim (given_or input.host config.router.host)))) _ _
      (λ e. tt)
      (λ e.
        split_if P
          (not (tools.valid_ipv4 (tools.trim (given_or input.rethink_ip config.router.rethink_ip))))
          _ _ (λ f. tt)
          (λ f.
            split_option P (valid_port (port_or input.port config.router.port)) _ _ (λ g. tt)
              (λ port g.
                let next = next_router tools input config.router port in
                let (some_port, below) =
                  valid_port_lem (port_or input.port config.router.port) port g in
                split_if P (is_empty next.username) _ _ (λ k. tt)
                  (λ k.
                    split_if P (is_empty next.password) _ _ (λ l. tt)
                      (λ l.
                        split_if P (bad_fingerprint tools next.host_key_fingerprint) _ _ (λ m. tt)
                          (λ m.
                            split_if P (some_entry (is_router_ip next) config.devices) _ _ (λ n. tt)
                              (λ n. (
                                settings (tools.valid_ipv4 next.host)
                                    (tools.valid_ipv4 next.rethink_ip) (is_empty next.username)
                                    (is_empty next.password) (ltb 0 port) e f k l some_port,
                                below,
                                m,
                              ))))))))
