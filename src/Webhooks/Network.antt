-- ===== src/Webhooks/Network.antt =====
-- The screening of webhook URLs (app/utils/network_validation.py). The URL parser, the address
-- parser and the resolver belong to the standard library: the first two are `Library`, the answer
-- of `socket.getaddrinfo` to a hostname is an argument.
use apex_chainx_backend.Common.{
  ℕ, String, Bool, false, not, ◌&&◌, ◌||◌, Option, none, some, List, [], ◌∷◌, ◌++◌, str_eq, leb,
  ◌==◌, if◌then◌else◌, get_or, length, any,
}
use text.Mathlib.Text.{starts_with}

-- A NetworkValidationError with its message, less the values in it, or a value.
pub data Checked {ℓ} (A : Type ℓ) : Type ℓ where
  refused : String → Checked A
  accepted : A → Checked A

-- What `urlparse` finds; `none` as the port is its ValueError, `some none` the absence of a port.
pub record ParsedUrl : Type 0 where
  pub scheme : String
  pub hostname : Option String
  pub port : Option (Option ℕ)
  pub fragment : String

-- What `ipaddress.ip_address` tells of an address.
pub record IpAddress : Type 0 where
  pub text : String
  pub is_loopback : Bool
  pub is_link_local : Bool
  pub is_multicast : Bool
  pub is_reserved : Bool
  pub is_private : Bool

pub record Library : Type 0 where
  pub urlparse : String → ParsedUrl
  pub ip_address : String → Option IpAddress
  pub lower : String → String

-- The settings that the screening reads.
pub record NetworkSettings : Type 0 where
  pub environment : String
  pub allow_private_networks : Bool
  pub url_allowlist : List String
  pub validator_bypass : Bool

-- `if fails: raise NetworkValidationError(message)`, before the rest.
abbrev pub unless {ℓ} : {A : Type ℓ} → Bool → String → Checked A → Checked A
unless fails message rest = if fails then refused message else rest

-- The loop of `_resolve_host`: each address once, until there are `max_results`.
unfoldable pub distinct_upto : ℕ → List String → List String → List String
distinct_upto max_results [] ips = ips
distinct_upto max_results (ip ∷ more) ips =
    let ips' = if any (str_eq ip) ips then ips else ips ++ ip ∷ [] in
    let rest = distinct_upto max_results more ips' in
    if leb max_results (length ips') then ips' else rest

-- `addr_info` is the resolver; the answer `none` is a `gaierror`.
unfoldable pub resolve_host : String → (String → Option (List String)) → Checked (List String)
unfolding distinct_upto
resolve_host hostname addr_info =
    unless (str_eq hostname "") "Webhook URL must include a hostname." (elim (addr_info hostname) [
      | none ↦ refused "Could not resolve hostname"
      | some found ↦ elim (distinct_upto 5 found []) [
        | [] ↦ refused "Could not resolve hostname"
        | ip ∷ ips ↦ accepted (ip ∷ ips)
      ]
    ])

module _ (library : Library) (settings : NetworkSettings) where
  unfoldable pub validate_ip_address : String → Checked (Unit {0})
  validate_ip_address ip_str = elim (library.ip_address ip_str) [
    | none ↦ refused "Invalid IP address"
    | some ip ↦ unless ip.is_loopback "Loopback addresses are not allowed." (
        unless ip.is_link_local "Link-local addresses are not allowed." (
          unless ip.is_multicast "Multicast addresses are not allowed." (
            unless (str_eq ip.text "169.254.169.254")
              "Cloud metadata service addresses are not allowed."
              (unless ip.is_reserved "Reserved IP addresses are not allowed." (
                unless (ip.is_private && not settings.allow_private_networks)
                  "Private network addresses are not allowed." (accepted tt))))))
  ]

  -- `for ip in resolved_ips: _validate_ip_address(ip)`
  unfoldable pub validate_ips : List String → Checked (Unit {0})
  validate_ips [] = accepted tt
  validate_ips (ip ∷ ips) =
      let rest = validate_ips ips in
      elim (validate_ip_address ip) [ refused message ↦ refused message | accepted _ ↦ rest ]

  unfoldable pub bad_port : Option ℕ → Bool
  bad_port none = false
  bad_port (some port) = not (port == 80 || port == 443)

  -- An empty allowlist allows every URL.
  not_allowed : String → List String → Bool
  not_allowed url [] = false
  not_allowed url (entry ∷ entries) = not (any (starts_with url) (entry ∷ entries))

  -- The last lines of `validate_webhook_url`: the addresses of the host, each one checked.
  unfoldable pub resolve_public : String → (String → Option (List String)) → Checked (List String)
  resolve_public hostname addr_info = elim (resolve_host hostname addr_info) [
    | refused message ↦ refused message
    | accepted resolved_ips ↦ elim (validate_ips resolved_ips) [
      | refused message ↦ refused message
      | accepted _ ↦ accepted resolved_ips
    ]
  ]

  unfoldable pub validate_webhook_url :
      String → (String → Option (List String)) → Checked (List String)
  unfolding bad_port not_allowed
  validate_webhook_url url addr_info =
      let parsed = library.urlparse url in
      let hostname = get_or parsed.hostname "" in
      let is_local = str_eq settings.environment "local" in
      elim parsed.port [
        | none ↦ refused "Webhook URL contains an invalid port."
        | some port ↦ unless (bad_port port) "Webhook URL must use port 80 or 443." (
            unless (not (str_eq parsed.fragment "")) "Webhook URL must not contain a fragment." (
              unless (not (str_eq parsed.scheme "http" || str_eq parsed.scheme "https"))
                "Webhook URL must use http or https."
                (unless (not is_local && not (str_eq parsed.scheme "https"))
                  "In non-local environments, webhook URLs must use https."
                  (unless (not_allowed url settings.url_allowlist)
                    "Webhook URL is not in the configured allowlist."
                    (if settings.validator_bypass && is_local
                      then resolve_host hostname addr_info
                      else unless (str_eq (library.lower hostname) "localhost")
                          "Localhost is not allowed for webhook URLs."
                          (resolve_public hostname addr_info))))))
      ]
