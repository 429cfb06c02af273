-- ===== src/Http/Origin.antt =====
-- backend/internal/httpapi/handler.go: originAllowed and what it calls, cors and securityHeaders. The
-- packages net and net/url are parameters.
pub mod Listed
use punchline.Base.{
  ℕ, Bool, true, false, not, ◌&&◌, ◌||◌, List, [], ◌∷◌, ◌++◌, Option, none, some, if◌then◌else◌,
  map, Text, codes, same, trim_space, to_lower,
}
use punchline.Proxy.{trim_brackets, split_commas}

-- `u.Host` of `url.Parse`, none on an error; the host and the port of `net.SplitHostPort`; and the
-- rune that stands for those that `unicode.SimpleFold` joins.
pub record HostPackage : Type 0 where
  pub url_host : Text → Option Text
  pub split_host_port : Text → Option (Text × Text)
  pub fold : ℕ → ℕ

-- The keys of the map of `parseAllowedOrigins`.
unfoldable pub origins_of : List Text → List Text
origins_of [] = []
origins_of (part ∷ parts) =
    let rest = origins_of parts in
    let origin = trim_space part in if same origin [] then rest else origin ∷ rest

unfoldable pub parse_allowed_origins : Text → List Text
unfolding origins_of split_commas
parse_allowed_origins raw = origins_of (split_commas raw)

-- `h.allowedOrigins[origin]`.
unfoldable pub is_listed : Text → List Text → Bool
is_listed origin [] = false
is_listed origin (o ∷ os) = let rest = is_listed origin os in if same o origin then true else rest

unfoldable pub is_loopback_host : Text → Bool
unfolding trim_brackets
is_loopback_host host =
    let h = trim_brackets (to_lower (trim_space host)) in
    same h (codes "localhost") || same h (codes "127.0.0.1") || same h (codes "::1")

module _ (hosts : HostPackage) where
  -- `strings.EqualFold`.
  unfoldable pub equal_fold : Text → Text → Bool
  equal_fold a b = same (map hosts.fold a) (map hosts.fold b)

  unfoldable pub same_split : Option (Text × Text) → Option (Text × Text) → Bool
  same_split (some (ah, ap)) (some (bh, bp)) = equal_fold ah bh && same ap bp
  same_split _ _ = false

  unfoldable pub same_host : Text → Text → Bool
  unfolding equal_fold same_split
  same_host a b =
      if equal_fold a b
      then true
      else same_split (hosts.split_host_port a) (hosts.split_host_port b)

  abbrev host_or : Text → Option (Text × Text) → Text
  host_or a none = a
  host_or a (some (host, port)) = host

  unfoldable pub same_loopback_host : Text → Text → Bool
  unfolding is_loopback_host
  same_loopback_host a b =
      is_loopback_host (host_or a (hosts.split_host_port a))
      && is_loopback_host (host_or b (hosts.split_host_port b))

  -- The origin's host is the request's, or both are this machine's.
  unfoldable pub is_own_host : Text → Option Text → Bool
  unfolding same_host same_loopback_host
  is_own_host host none = false
  is_own_host host (some h) =
      if same h [] then false else same_host h host || same_loopback_host h host

  -- `originAllowed`, of the listed origins, the request's host and its header.
  unfoldable pub origin_allowed : List Text → Text → Text → Bool
  unfolding is_listed is_own_host
  origin_allowed listed host header =
      let origin = trim_space header in
      if same origin []
      then true
      else if is_listed origin listed
      then true
      else is_own_host host (hosts.url_host origin)

  abbrev cors_headers : Text → List (Text × Text)
  cors_headers origin =
      if same origin []
      then []
      else (codes "Vary", codes "Origin")
        ∷ (codes "Access-Control-Allow-Origin", origin)
        ∷ (codes "Access-Control-Allow-Headers", codes "Content-Type, Authorization")
        ∷ (codes "Access-Control-Allow-Methods", codes "GET,POST,PATCH,DELETE,OPTIONS")
        ∷ []

  -- What `cors` does with a request: it answers itself, with these headers and this status, or hands
  -- the request on, with the headers set.
  pub data Cors : Type 0 where
    forbidden no_content : List (Text × Text) → Cors
    next : List (Text × Text) → Cors

  unfoldable pub cors : List Text → Text → Text → Text → Cors
  unfolding origin_allowed
  cors listed host method origin =
      if not (same origin []) && not (origin_allowed listed host origin)
      then forbidden ((codes "Vary", codes "Origin") ∷ [])
      else if same method (codes "OPTIONS")
      then no_content (cors_headers origin)
      else next (cors_headers origin)

-- The headers of `securityHeaders`: of a request's host, of its TLS and of its forwarded protocol.
unfoldable pub security_headers : Text → Bool → List (Text × Text)
security_headers host is_https =
    (codes "X-Content-Type-Options", codes "nosniff")
    ∷ (codes "X-Frame-Options", codes "DENY")
    ∷ (codes "Referrer-Policy", codes "no-referrer")
    ∷ (codes "Permissions-Policy", codes "camera=(), microphone=(), geolocation=()")
    ∷ (
      codes "Content-Security-Policy",
      codes "default-src 'self'; script-src 'self'; style-src 'self'; connect-src 'self' ws://"
          ++ host
          ++ codes " wss://"
          ++ host
          ++ codes
              "; img-src 'self' data:; base-uri 'none'; frame-ancestors 'none'; form-action 'none'",
    )
    ∷ (if is_https
        then (codes "Strict-Transport-Security", codes "max-age=31536000; includeSubDomains") ∷ []
        else [])
