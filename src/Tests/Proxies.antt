-- ===== src/Tests/Proxies.antt =====
-- A client that claims another address.
use punchline.Base.{
  ℕ, ◌≡◌, ◌==◌, refl, arith, [], ◌∷◌, Option, none, some, Text, codes, same, if◌then◌else◌,
  text_discrete, inl, inr, trim_space, trim_left, is_space, to_lower, lower_rune,
}
use punchline.Proxy.{
  NetPackage, Request, client_ip, new_proxy_header_config, trusts, remote_ip, trim_brackets,
  trim_left_brackets, any_contains, add_parts, add_networks, expand_proxy_cidr_token, split_commas,
  truthy_env,
}
use punchline.Proxy.Untrusted.{client_ip-untrusted}

-- What stands before a port.
abbrev before_colon : Text → Text
before_colon [] = []
before_colon (r ∷ s) = if r == 0x3a then [] else r ∷ before_colon s

-- Every text but the empty one is an address, and every network is one address.
abbrev parse : Text → Option (ℕ × Text)
parse [] = none
parse (r ∷ s) = some (r, s)

abbrev texts_net : NetPackage
texts_net = record {
  Ip = ℕ × Text;
  Network = Text;
  parse_ip = parse;
  ip_string = λ ip. ip.0 ∷ ip.1;
  parse_cidr = λ t. some t;
  contains = λ network ip. same network (ip.0 ∷ ip.1);
  split_host_port = λ t. some (before_colon t);
}

abbrev honest : Request
honest = record {
  remote_addr = codes "9.9.9.9:4000";
  fly_client_ip = [];
  x_real_ip = [];
  x_forwarded_for = [];
}

abbrev spoofed : Request
spoofed = record honest { remote_addr = codes "9.9.9.9:4001"; x_real_ip = codes "1.2.3.4" }

client_ip-untrusted_example :
    client_ip texts_net (new_proxy_header_config texts_net (codes "no") (codes "10.0.0.1")) spoofed
    ≡ client_ip texts_net (new_proxy_header_config texts_net (codes "no") (codes "10.0.0.1")) honest
unfolding trusts remote_ip trim_brackets trim_left_brackets any_contains new_proxy_header_config
    add_parts add_networks expand_proxy_cidr_token split_commas truthy_env text_discrete trim_space
    trim_left is_space to_lower lower_rune
client_ip-untrusted_example =
    client_ip-untrusted texts_net (codes "no") (codes "10.0.0.1") spoofed honest
      (λ ip e. ground (arith, e)) (inr (codes "9.9.9.9", refl, refl, λ e. ground (arith, e)))
      (inl refl)
