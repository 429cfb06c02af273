-- ===== src/Http/Labels.antt =====
-- The routes under which requests are counted.
use punchline.Base.{refl, Bool, true, false, List, [], ◌∷◌, Text, codes, if◌then◌else◌}
use punchline.Room.Ids.{In, here, there}
use punchline.Http.Metrics.Instrument.{route_label}

-- The labels of `routeLabel`.
abbrev pub labels : List Text
labels =
    codes "/"
    ∷ codes "/healthz"
    ∷ codes "/readyz"
    ∷ codes "/metrics"
    ∷ codes "/api/computer-room"
    ∷ codes "/api/rooms"
    ∷ codes "/api/rooms/{code}/join"
    ∷ codes "/api/rooms/{code}"
    ∷ codes "/api/daily/groups"
    ∷ codes "/api/daily/groups/{code}"
    ∷ codes "/api/daily/groups/{code}/join"
    ∷ codes "/api/daily/groups/{code}/today"
    ∷ codes "/api/daily/rounds/{id}/submit"
    ∷ codes "/api/daily/rounds/{id}/vote"
    ∷ codes "/ws/rooms/{code}"
    ∷ codes "/assets/*"
    ∷ codes "static"
    ∷ []

-- A chain of tests that ends in one of the labels after those that it gives first.
next_label : (b : Bool) (s t : Text) (ls : List Text) → In t ls → In (if b then s else t) (s ∷ ls)
next_label true s t ls h = here refl
next_label false s t ls h = there h

pub route_label-In : (method path : Text) → In (route_label method path) labels
unfolding route_label
route_label-In method path = next_label _ _ _ _ (
    next_label _ _ _ _ (
      next_label _ _ _ _ (
        next_label _ _ _ _ (
          next_label _ _ _ _ (
            next_label _ _ _ _ (
              next_label _ _ _ _ (
                next_label _ _ _ _ (
                  next_label _ _ _ _ (
                    next_label _ _ _ _ (
                      next_label _ _ _ _ (
                        next_label _ _ _ _ (
                          next_label _ _ _ _ (
                            next_label _ _ _ _
                              (next_label _ _ _ _ (next_label _ _ _ _ (here refl))))))))))))))))
