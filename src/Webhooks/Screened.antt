-- ===== src/Webhooks/Screened.antt =====
-- What a screened webhook URL satisfies (app/utils/network_validation.py).
use apex_chainx_backend.Common.{
  ℕ, ◌≡◌, ◌≢◌, ◌⊎◌, refl, inl, inr, String, Bool, true, false, ◌&&◌, ◌||◌, ◌==◌, Option, none, some,
  List, [], ◌∷◌, str_eq, eq_iff, get_or, All, Option-cases, subst, arith,
}
use apex_chainx_backend.Webhooks.Network.{
  Checked, refused, accepted, unless, IpAddress, Library, NetworkSettings, resolve_host,
  resolve_public, validate_ip_address, validate_ips, validate_webhook_url, bad_port,
}
use apex_chainx_backend.Webhooks.Resolved.{IsKept, resolve_host-accepted}

unless-accepted {ℓ} :
    {A : Type ℓ} (fails : Bool) (message : String) (rest : Checked A) (a : A)
    → unless fails message rest ≡ accepted a
    → (fails ≡ false) × (rest ≡ accepted a)
unless-accepted fails message rest a h = ground arith

-- An address that the outside can be reached at.
abbrev pub IsPublic : Library → NetworkSettings → String → Type 0
IsPublic library settings ip_str =
    (ip : IpAddress) × (library.ip_address ip_str ≡ some ip)
    × (ip.is_loopback ≡ false)
    × (ip.is_link_local ≡ false)
    × (ip.is_multicast ≡ false)
    × (ip.text ≢ "169.254.169.254")
    × (ip.is_reserved ≡ false)
    × ((ip.is_private ≡ false) ⊎ (settings.allow_private_networks ≡ true))

pub Checked-cases {ℓ} :
    {A : Type ℓ} (c : Checked A) → ((m : String) × (c ≡ refused m)) ⊎ ((a : A) × (c ≡ accepted a))
Checked-cases (refused m) = inl (m, refl)
Checked-cases (accepted a) = inr (a, refl)

module _ (library : Library) (settings : NetworkSettings) where
  validate_ip_address-accepted :
      (ip_str : String)
      → validate_ip_address library settings ip_str ≡ accepted tt
      → IsPublic library settings ip_str
  unfolding validate_ip_address
  validate_ip_address-accepted ip_str h = elim (Option-cases (library.ip_address ip_str)) [
    | inl none_found ↦ ground arith
    | inr (ip, e) ↦ (
      ip,
      e,
      ground arith,
      ground arith,
      ground arith,
      λ same. ground (arith, eq_iff ip.text "169.254.169.254"),
      ground arith,
      ground arith,
    )
  ]

  validate_ips-accepted :
      (ips : List String)
      → validate_ips library settings ips ≡ accepted tt
      → All (IsPublic library settings) ips
  unfolding validate_ips
  validate_ips-accepted [] h = tt
  validate_ips-accepted (ip ∷ ips) h =
      elim (Checked-cases (validate_ip_address library settings ip)) [
        | inl (m, e) ↦ ground arith
        | inr (_, e) ↦ (validate_ip_address-accepted ip e, validate_ips-accepted ips (ground arith))
      ]

  -- What is known of the addresses that a host passes with.
  abbrev pub IsScreened : String → (String → Option (List String)) → List String → Type 0
  IsScreened hostname addr_info ips =
      ((found : List String) × (addr_info hostname ≡ some found) × IsKept found ips)
      × All (IsPublic library settings) ips

  resolve_public-accepted :
      (hostname : String) (addr_info : String → Option (List String)) (ips : List String)
      → resolve_public library settings hostname addr_info ≡ accepted ips
      → IsScreened hostname addr_info ips
  unfolding resolve_public
  resolve_public-accepted hostname addr_info ips h =
      elim (Checked-cases (resolve_host hostname addr_info)) [
        | inl (m, e) ↦ ground arith
        | inr (found, e) ↦ elim (Checked-cases (validate_ips library settings found)) [
          | inl (m, e') ↦ ground arith
          | inr (_, e') ↦
              let same : found ≡ ips = ground arith in
              subst (IsScreened hostname addr_info) same
                (resolve_host-accepted hostname addr_info found e, validate_ips-accepted found e')
        ]
      ]

  port_allowed :
      (port : Option ℕ)
      → bad_port library settings port ≡ false
      → get_or port 443 == 80 || get_or port 443 == 443 ≡ true
  unfolding bad_port
  port_allowed none h = refl
  port_allowed (some p) h = ground arith

  -- With the bypass of local environments switched off, a URL that passes the screening uses https
  -- unless the environment is local, its port is 80, 443 or absent, and its host resolves. The
  -- addresses that are returned are among those that the resolver answers for this host, between one
  -- and five, and all of them unless there are five. Each returned address is reachable from the
  -- outside: it is no loopback, link-local, multicast, metadata or reserved address, and it is
  -- private only where the settings allow private networks.
  pub validate_webhook_url-IsScreened :
      (url : String) (addr_info : String → Option (List String)) (ips : List String)
      → settings.validator_bypass && str_eq settings.environment "local" ≡ false
      → validate_webhook_url library settings url addr_info ≡ accepted ips
      → ((str_eq settings.environment "local" ≡ true)
          ⊎ (str_eq (library.urlparse url).scheme "https" ≡ true))
        × ((port : Option ℕ) × ((library.urlparse url).port ≡ some port)
            × (get_or port 443 == 80 || get_or port 443 == 443 ≡ true))
        × IsScreened (get_or (library.urlparse url).hostname "") addr_info ips
  unfolding validate_webhook_url bad_port
  validate_webhook_url-IsScreened url addr_info ips off h =
      let hostname : String = get_or (library.urlparse url).hostname "" in
      elim (Option-cases (library.urlparse url).port) [
        | inl bad ↦ ground arith
        | inr (port, e) ↦
            let host : resolve_public library settings hostname addr_info ≡ accepted ips =
              ground arith in
            (
              ground arith,
              (port, e, port_allowed port (ground arith)),
              resolve_public-accepted hostname addr_info ips host,
            )
      ]
