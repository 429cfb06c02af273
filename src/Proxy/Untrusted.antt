-- ===== src/Proxy/Untrusted.antt =====
-- The headers of a client that is not a trusted proxy.
use punchline.Base.{
  ◌≡◌, ◌≢◌, refl, ap, false, [], Option, none, some, Text, arith, Option-cases, inl, inr, ◌⊎◌,
  trim_space, trim_left, text_discrete,
}
use punchline.Proxy.{
  NetPackage, Request, ProxyHeaderConfig, remote_ip, trusts, client_ip, new_proxy_header_config,
  any_contains, add_parts, trim_brackets, truthy_env, split_commas,
}

module _ (net : NetPackage) where
  -- Without a trusted network, an address is trusted only where all are.
  trusts-none :
      (cfg : ProxyHeaderConfig net) (remote : Text)
      → cfg.trust_all ≡ false
      → cfg.nets ≡ []
      → trusts net cfg remote ≡ false
  unfolding trusts any_contains
  trusts-none cfg remote h k = elim (Option-cases (net.parse_ip (trim_brackets remote))) [
    | inl e ↦ ground (arith, e)
    | inr (ip, e) ↦ ground (arith, e, h, k)
  ]

  -- Two requests over connections from one host: their addresses are the same, or differ in the port.
  abbrev pub SameHost : Request → Request → Type 0
  SameHost r s =
      (r.remote_addr ≡ s.remote_addr)
      ⊎ ((host : Text) × (net.split_host_port r.remote_addr ≡ some host)
          × (net.split_host_port s.remote_addr ≡ some host)
          × (host ≢ []))

  -- The text of a host.
  host_string : Text → Option net.Ip → Text
  host_string host none = host
  host_string host (some ip) = net.ip_string ip

  remote_ip-host :
      (r : Request) (host : Text)
      → net.split_host_port r.remote_addr ≡ some host
      → remote_ip net r ≡ host_string host (net.parse_ip (trim_brackets host))
  unfolding remote_ip host_string
  remote_ip-host r host e = elim (Option-cases (net.parse_ip (trim_brackets host))) [
    | inl f ↦ rw (e, f) refl
    | inr (ip, f) ↦ rw (e, f) refl
  ]

  remote_ip-address :
      (r s : Request) → r.remote_addr ≡ s.remote_addr → remote_ip net r ≡ remote_ip net s
  unfolding remote_ip
  remote_ip-address r s e = rw e refl

  host_string-not_empty :
      (host : Text) (ip : Option net.Ip)
      → host ≢ []
      → ((ip : net.Ip) → net.ip_string ip ≢ [])
      → host_string host ip ≢ []
  unfolding host_string
  host_string-not_empty host none n shown = n
  host_string-not_empty host (some ip) n shown = shown ip

  client_ip-untrusted_eq :
      (cfg : ProxyHeaderConfig net) (r s : Request)
      → ((ip : net.Ip) → net.ip_string ip ≢ [])
      → SameHost r s
      → trusts net cfg (remote_ip net r) ≡ false
      → client_ip net cfg r ≡ client_ip net cfg s
  unfolding client_ip
  client_ip-untrusted_eq cfg r s shown (inl e) h = ground (arith, e, remote_ip-address r s e, h)
  client_ip-untrusted_eq cfg r s shown (inr (host, e, f, n)) h =
      let m = host_string-not_empty host (net.parse_ip (trim_brackets host)) n shown in
      ground (arith, remote_ip-host r host e, remote_ip-host s host f, m, h)

  -- Two requests from one host that is not a trusted proxy's, over connections from any of its ports,
  -- count as one client's, whatever their headers say, if no address is written as the empty text;
  -- and where the environment trusts nobody, with the first variable not set to a truth value and the
  -- second empty, this holds of every host.
  pub client_ip-untrusted :
      (trust cidrs : Text) (r s : Request)
      → ((ip : net.Ip) → net.ip_string ip ≢ [])
      → SameHost r s
      → (trusts net (new_proxy_header_config net trust cidrs) (remote_ip net r) ≡ false)
        ⊎ ((truthy_env trust ≡ false) × (cidrs ≡ []))
      → client_ip net (new_proxy_header_config net trust cidrs) r
        ≡ client_ip net (new_proxy_header_config net trust cidrs) s
  unfolding new_proxy_header_config add_parts split_commas trim_space text_discrete trim_left
  client_ip-untrusted trust cidrs r s shown e (inl h) =
      client_ip-untrusted_eq (new_proxy_header_config net trust cidrs) r s shown e h
  client_ip-untrusted trust cidrs r s shown e (inr (t, c)) =
      client_ip-untrusted_eq (new_proxy_header_config net trust cidrs) r s shown e (
        trusts-none (new_proxy_header_config net trust cidrs) (remote_ip net r) t
          (ap (λ l. (new_proxy_header_config net trust l).nets) c))
