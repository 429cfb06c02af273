-- ===== src/Http/Origin/Listed.antt =====
-- The origins of the environment variable.
use punchline.Base.{
  ◌≡◌, ◌≢◌, refl, ap, ◌∙◌, true, List, [], ◌∷◌, ◌++◌, Text, arith, All, trim_space, text_discrete,
}
use punchline.Proxy.{split_commas}
use punchline.Http.Origin.{
  HostPackage, origins_of, parse_allowed_origins, is_listed, origin_allowed,
}
use punchline.Room.Ids.{In, here, there}

-- The origins as they are written into the variable.
abbrev pub join_commas : List Text → Text
join_commas [] = []
join_commas (o ∷ []) = o
join_commas (o ∷ p ∷ os) = o ++ 0x2c ∷ join_commas (p ∷ os)

-- An origin without commas, and without blanks around it.
pub record IsOrigin (o : Text) : Type 0 where
  pub plain : All (λ r. r ≢ 0x2c) o
  pub trimmed : trim_space o ≡ o
  pub not_empty : o ≢ []

split_commas-one : (o : Text) → All (λ r. r ≢ 0x2c) o → split_commas o ≡ o ∷ []
unfolding split_commas
split_commas-one [] h = refl
split_commas-one (r ∷ o) h = ground (arith, h.0, split_commas-one o h.1)

split_commas-more :
    (o t : Text) → All (λ r. r ≢ 0x2c) o → split_commas (o ++ 0x2c ∷ t) ≡ o ∷ split_commas t
unfolding split_commas
split_commas-more [] t h = ground arith
split_commas-more (r ∷ o) t h = ground (arith, h.0, split_commas-more o t h.1)

origins_of-cons : (o : Text) (os : List Text) → IsOrigin o → origins_of (o ∷ os) ≡ o ∷ origins_of os
unfolding origins_of
origins_of-cons o os h = ground (arith, h.trimmed, h.not_empty)

parse_allowed_origins-join :
    (os : List Text) → All IsOrigin os → parse_allowed_origins (join_commas os) ≡ os
unfolding parse_allowed_origins text_discrete trim_space
parse_allowed_origins-join [] h = refl
parse_allowed_origins-join (o ∷ []) h =
    ap origins_of (split_commas-one o h.0.plain) ∙ origins_of-cons o [] h.0
parse_allowed_origins-join (o ∷ p ∷ os) h =
    ap origins_of (split_commas-more o (join_commas (p ∷ os)) h.0.plain)
    ∙ origins_of-cons o (split_commas (join_commas (p ∷ os))) h.0
    ∙ ap (λ x. o ∷ x) (parse_allowed_origins-join (p ∷ os) h.1)

is_listed-In : (o : Text) (os : List Text) → In o os → is_listed o os ≡ true
unfolding is_listed
is_listed-In o [] h = elim h [ ]
is_listed-In o (p ∷ os) (here e) = ground (arith, e)
is_listed-In o (p ∷ os) (there h) = ground (arith, is_listed-In o os h)

-- Origins without commas or blanks around them that are written into the variable, with commas
-- between them, are the map that is read; and a request that names one of them, with blanks around
-- it or not, is allowed whatever its host is.
pub origin_allowed-join :
    (hosts : HostPackage) (os : List Text) (host header : Text)
    → All IsOrigin os
    → In (trim_space header) os
    → (parse_allowed_origins (join_commas os) ≡ os)
      × (origin_allowed hosts (parse_allowed_origins (join_commas os)) host header ≡ true)
unfolding origin_allowed
origin_allowed-join hosts os host header h i =
    let e = parse_allowed_origins-join os h in
    (e, rw e (ground (arith, is_listed-In (trim_space header) os i)))
