-- ===== src/Proxy.antt =====
-- The address of a client behind proxies (backend/internal/httpapi/ratelimit.go, proxyHeaderConfig). The
-- package net is a parameter; so are the values of the environment.
pub mod Untrusted
use punchline.Base.{
  Bool, true, false, ◌||◌, List, [], ◌∷◌, ◌++◌, Option, none, some, if◌then◌else◌, ◌==◌, Text,
  codes, same, ℕ, trim_space, to_lower,
}
use mathlib.Core.List.{reverse}

-- What the code uses of package net: ParseIP and String of an address, ParseCIDR and Contains of a
-- network, and the host of SplitHostPort.
pub record NetPackage : Type 1 where
  pub Ip : Type 0
  pub Network : Type 0
  pub parse_ip : Text → Option Ip
  pub ip_string : Ip → Text
  pub parse_cidr : Text → Option Network
  pub contains : Network → Ip → Bool
  pub split_host_port : Text → Option Text

-- What is read of a request.
pub record Request : Type 0 where
  pub remote_addr : Text
  pub fly_client_ip : Text
  pub x_real_ip : Text
  pub x_forwarded_for : Text

abbrev is_bracket : ℕ → Bool
is_bracket r = r == 0x5b || r == 0x5d

unfoldable pub trim_left_brackets : Text → Text
trim_left_brackets [] = []
trim_left_brackets (r ∷ s) = if is_bracket r then trim_left_brackets s else r ∷ s

-- `strings.Trim(s, "[]")`.
unfoldable pub trim_brackets : Text → Text
unfolding trim_left_brackets
trim_brackets s = reverse (trim_left_brackets (reverse (trim_left_brackets s)))

-- `strings.Split(s, ",")[0]`.
unfoldable pub before_comma : Text → Text
before_comma [] = []
before_comma (r ∷ s) = if r == 0x2c then [] else r ∷ before_comma s

abbrev push_first : ℕ → List Text → List Text
push_first r [] = (r ∷ []) ∷ []
push_first r (part ∷ parts) = (r ∷ part) ∷ parts

-- `strings.Split(s, ",")`.
unfoldable pub split_commas : Text → List Text
split_commas [] = [] ∷ []
split_commas (r ∷ s) =
    let rest = split_commas s in if r == 0x2c then [] ∷ rest else push_first r rest

unfoldable pub truthy_env : Text → Bool
truthy_env value =
    let v = to_lower (trim_space value) in
    same v (codes "1") || same v (codes "true") || same v (codes "yes") || same v (codes "on")

unfoldable pub expand_proxy_cidr_token : Text → List Text
expand_proxy_cidr_token token =
    if same (to_lower token) (codes "loopback")
    then codes "127.0.0.0/8" ∷ codes "::1/128" ∷ []
    else if same (to_lower token) (codes "private")
    then codes "10.0.0.0/8" ∷ codes "172.16.0.0/12" ∷ codes "192.168.0.0/16" ∷ codes "fc00::/7" ∷ []
    else token ∷ []

abbrev not_empty : Text → Bool
not_empty s = if same s [] then false else true

module _ (net : NetPackage) where
  pub record ProxyHeaderConfig : Type 0 where
    pub trust_all : Bool
    pub nets : List net.Network

  -- `append(cfg.nets, network)`, where there is no error.
  abbrev append_network : List net.Network → Option net.Network → List net.Network
  append_network nets none = nets
  append_network nets (some network) = nets ++ network ∷ []

  unfoldable pub add_networks : List Text → List net.Network → List net.Network
  add_networks [] nets = nets
  add_networks (cidr ∷ cidrs) nets = add_networks cidrs (append_network nets (net.parse_cidr cidr))

  unfoldable pub add_parts : List Text → List net.Network → List net.Network
  unfolding add_networks expand_proxy_cidr_token
  add_parts [] nets = nets
  add_parts (part ∷ parts) nets =
      let token = trim_space part in
      add_parts parts
        (if same token [] then nets else add_networks (expand_proxy_cidr_token token) nets)

  -- `newProxyHeaderConfig`, of the two variables of the environment.
  unfoldable pub new_proxy_header_config : Text → Text → ProxyHeaderConfig
  unfolding add_parts truthy_env split_commas
  new_proxy_header_config trust cidrs = record {
    trust_all = truthy_env trust;
    nets = add_parts (split_commas cidrs) [];
  }

  abbrev string_or : Text → Option net.Ip → Text
  string_or text none = text
  string_or text (some ip) = net.ip_string ip

  abbrev remote_of : Text → Option Text → Text
  remote_of addr (some host) = string_or host (net.parse_ip (trim_brackets host))
  remote_of addr none = string_or addr (net.parse_ip (trim_brackets addr))

  unfoldable pub remote_ip : Request → Text
  unfolding trim_brackets
  remote_ip r = remote_of r.remote_addr (net.split_host_port r.remote_addr)

  unfoldable pub any_contains : List net.Network → net.Ip → Bool
  any_contains [] ip = false
  any_contains (network ∷ nets) ip = if net.contains network ip then true else any_contains nets ip

  abbrev trusts_ip : ProxyHeaderConfig → Option net.Ip → Bool
  trusts_ip cfg none = false
  trusts_ip cfg (some ip) = if cfg.trust_all then true else any_contains cfg.nets ip

  unfoldable pub trusts : ProxyHeaderConfig → Text → Bool
  unfolding trim_brackets any_contains
  trusts cfg remote =
      if same remote [] then false else trusts_ip cfg (net.parse_ip (trim_brackets remote))

  abbrev ip_or_next : Text → Option net.Ip → Text
  ip_or_next next none = next
  ip_or_next next (some ip) = net.ip_string ip

  -- One header of the loop of `forwardedIP`; `next` is what the later ones give.
  unfoldable pub header_ip : Text → Text → Text
  unfolding trim_brackets
  header_ip raw next =
      if same raw [] then next else ip_or_next next (net.parse_ip (trim_brackets raw))

  unfoldable pub forwarded_ip : Request → Text
  unfolding header_ip before_comma
  forwarded_ip r = header_ip (trim_space r.fly_client_ip) (
      header_ip (trim_space r.x_real_ip) (
        if same (trim_space r.x_forwarded_for) []
        then []
        else ip_or_next [] (
            net.parse_ip
              (trim_brackets (trim_space (before_comma (trim_space r.x_forwarded_for)))))))

  unfoldable pub client_ip : ProxyHeaderConfig → Request → Text
  client_ip cfg r =
      let remote = remote_ip r in
      let header = forwarded_ip r in
      if (if trusts cfg remote then not_empty header else false)
      then header
      else if same remote []
      then r.remote_addr
      else remote
