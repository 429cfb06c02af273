-- ===== src/Http/Orders.antt =====
-- The order in which the metrics are printed.
use mathlib.Core.List.{Perm}
use native.Mathlib.Decide.{ℕ_discrete}
use punchline.Base.{◌≡◌, refl, ap, ◌∙◌, ◌⊎◌, inl, inr, true, false, List, [], ◌∷◌, Text, arith, ℕ}
use punchline.Base.Sorts.{StrictOrder, sort_by-perm}
use punchline.Room.Persist.{text_lt}
use punchline.Http.Metrics.{HttpMetricKey, count_at, same_http_key}
use punchline.Http.Metrics.Keys.{http_key_less, keys_of, sorted_http_keys, lines_of, request_lines}

text_lt-asymm : (a b : Text) → text_lt a b ≡ true → text_lt b a ≡ false
unfolding text_lt
text_lt-asymm [] [] h = cc
text_lt-asymm [] (r ∷ t) h = refl
text_lt-asymm (q ∷ s) [] h = cc
text_lt-asymm (q ∷ s) (r ∷ t) h = ground (arith, text_lt-asymm s t, h)

text_lt_trans : (a b c : Text) → text_lt a b ≡ true → text_lt b c ≡ true → text_lt a c ≡ true
unfolding text_lt
text_lt_trans a [] c h k = ground (arith, h)
text_lt_trans a (q ∷ b) [] h k = ground (arith, k)
text_lt_trans [] (q ∷ b) (r ∷ c) h k = refl
text_lt_trans (p ∷ a) (q ∷ b) (r ∷ c) h k = ground (arith, text_lt_trans a b c, h, k)

text_lt-total : (a b : Text) → (text_lt a b ≡ true) ⊎ ((text_lt b a ≡ true) ⊎ (a ≡ b))
unfolding text_lt
text_lt-total [] [] = inr (inr refl)
text_lt-total [] (r ∷ t) = inl refl
text_lt-total (q ∷ s) [] = inr (inl refl)
text_lt-total (q ∷ s) (r ∷ t) = ground (arith, text_lt-total s t)

http_key_less-asymm : (a b : HttpMetricKey) → http_key_less a b ≡ true → http_key_less b a ≡ false
unfolding http_key_less
http_key_less-asymm a b h =
    ground (arith, text_lt-asymm a.route b.route, text_lt-asymm a.method b.method, h)

http_key_less_trans :
    (a b c : HttpMetricKey)
    → http_key_less a b ≡ true
    → http_key_less b c ≡ true
    → http_key_less a c ≡ true
unfolding http_key_less
http_key_less_trans a b c h k = ground (
  arith,
  text_lt_trans a.route b.route c.route,
  text_lt-asymm a.route b.route,
  text_lt_trans a.method b.method c.method,
  text_lt-asymm a.method b.method,
  h,
  k,
)

http_key_less-total :
    (a b : HttpMetricKey) → (http_key_less a b ≡ true) ⊎ ((http_key_less b a ≡ true) ⊎ (a ≡ b))
unfolding http_key_less
http_key_less-total a b =
    ground (arith, text_lt-total a.route b.route, text_lt-total a.method b.method)

http_key_less-StrictOrder : StrictOrder http_key_less
http_key_less-StrictOrder = record {
  asymm = http_key_less-asymm;
  trans = http_key_less_trans;
  total = http_key_less-total;
}

-- Two lists of the entries of one map: the same keys, and the same count under each.
pub record SameMap (es fs : List (HttpMetricKey × ℕ)) : Type 0 where
  pub keys : Perm (keys_of es) (keys_of fs)
  pub counts : (key : HttpMetricKey) → count_at same_http_key key es ≡ count_at same_http_key key fs

lines_of-counts :
    (ks : List HttpMetricKey) (es fs : List (HttpMetricKey × ℕ))
    → ((key : HttpMetricKey) → count_at same_http_key key es ≡ count_at same_http_key key fs)
    → lines_of ks es ≡ lines_of ks fs
unfolding lines_of
lines_of-counts [] es fs h = refl
lines_of-counts (k ∷ ks) es fs h = λ i. (k, h k i) ∷ lines_of-counts ks es fs h i

-- The counts of the requests are printed alike in whatever order the map of the counters lists its
-- entries, which Go leaves open.
pub request_lines-SameMap :
    (es fs : List (HttpMetricKey × ℕ)) → SameMap es fs → request_lines es ≡ request_lines fs
unfolding request_lines sorted_http_keys
request_lines-SameMap es fs s =
    lines_of-counts (sorted_http_keys es) es fs s.counts
    ∙ ap (λ ks. lines_of ks fs)
        (sort_by-perm http_key_less http_key_less-StrictOrder (hlevel ℕ_discrete) (keys_of es)
          (keys_of fs) s.keys)
