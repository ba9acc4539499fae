-- ===== src/Ip/Route/Longest.antt =====
-- The route that is looked up is the one of the longest matching netmask, the first one of these.
use rust_user_net.Base.{
  ℕ, ◌≤◌, ◌<◌, ◌≡◌, refl, bit_and, List, [], ◌∷◌, ◌++◌, Option, none, some, All, All-append, arith,
  append_assoc, append-nil,
}
use native.Mathlib.Decide.{dec_lt, ℕ_discrete}
use rust_user_net.Utils.Byte.{be_to_le_u32}
use rust_user_net.Utils.LinkedList.{iter}
use rust_user_net.Ip.Route.{IpRoute, IpRoutes, pick, pick_from, lookup_ip_route}

-- The route serves the destination.
abbrev pub Matches : ℕ → IpRoute → Type 0
Matches dst r = bit_and dst r.netmask ≡ r.network

-- The netmask as a number whose size grows with the prefix.
abbrev pub mask_of : IpRoute → ℕ
mask_of r = be_to_le_u32 r.netmask

abbrev pub Worse : ℕ → IpRoute → IpRoute → Type 0
Worse dst best r = Matches dst r → mask_of r < mask_of best

abbrev pub NoBetter : ℕ → IpRoute → IpRoute → Type 0
NoBetter dst best r = Matches dst r → mask_of r ≤ mask_of best

-- `best` matches; the matching routes before it have shorter masks, those after it no longer ones.
pub record Longest (dst : ℕ) (routes : List IpRoute) (best : IpRoute) : Type 0 where
  pub before : List IpRoute
  pub after : List IpRoute
  pub split : routes ≡ before ++ best ∷ after
  pub matches : Matches dst best
  pub earlier : All (Worse dst best) before
  pub later : All (NoBetter dst best) after

-- What a lookup over these routes may answer.
abbrev pub Answer : ℕ → List IpRoute → Option IpRoute → Type 0
Answer dst routes none = All (λ r. ¬ Matches dst r) routes
Answer dst routes (some best) = Longest dst routes best

All-map :
    (P Q : IpRoute → Type 0) (rs : List IpRoute) → ((r : IpRoute) → P r → Q r) → All P rs → All Q rs
All-map P Q [] f h = tt
All-map P Q (r ∷ rs) f h = (f r h.0, All-map P Q rs f h.1)

-- No route of a list whose best one is `c` reaches the longer mask of `r`.
All-Worse :
    (dst : ℕ) (seen : List IpRoute) (c r : IpRoute)
    → Longest dst seen c
    → mask_of c < mask_of r
    → All (Worse dst r) seen
All-Worse dst seen c r l h = rw l.split (
    All-append (Worse dst r) l.before (c ∷ l.after)
      (All-map (Worse dst c) (Worse dst r) l.before (λ x w m. below x (w m)) l.earlier)
      ((λ _. h), All-map (NoBetter dst c) (Worse dst r) l.after (λ x w m. under x (w m)) l.later))
  where
    below : (x : IpRoute) → mask_of x < mask_of c → mask_of x < mask_of r
    below x lt = omega arith

    under : (x : IpRoute) → mask_of x ≤ mask_of c → mask_of x < mask_of r
    under x le = omega arith

-- The best route stays when a route comes that is no better.
keep-Longest :
    (dst : ℕ) (seen : List IpRoute) (c r : IpRoute)
    → Longest dst seen c
    → NoBetter dst c r
    → Longest dst (seen ++ r ∷ []) c
keep-Longest dst seen c r l h = record {
  before = l.before;
  after = l.after ++ r ∷ [];
  split = rw l.split (append_assoc l.before (c ∷ l.after) (r ∷ []));
  matches = l.matches;
  earlier = l.earlier;
  later = All-append (NoBetter dst c) l.after (r ∷ []) l.later (h, tt);
}

-- A matching route is the best one when all before it are worse.
last-Longest :
    (dst : ℕ) (seen : List IpRoute) (r : IpRoute)
    → Matches dst r
    → All (Worse dst r) seen
    → Longest dst (seen ++ r ∷ []) r
last-Longest dst seen r m h = record {
  before = seen;
  after = [];
  split = refl;
  matches = m;
  earlier = h;
  later = tt;
}

pick_miss :
    (dst : ℕ) (candidate : Option IpRoute) (r : IpRoute)
    → ¬ Matches dst r
    → pick dst candidate r ≡ candidate
unfolding pick
pick_miss dst candidate r h = ground arith

pick-Answer :
    (dst : ℕ) (seen : List IpRoute) (candidate : Option IpRoute) (r : IpRoute)
    → Answer dst seen candidate
    → Answer dst (seen ++ r ∷ []) (pick dst candidate r)
pick-Answer dst seen none r h = elim (ℕ_discrete (bit_and dst r.netmask) r.network) [
  | yes m ↦
      rw (first m)
        (last-Longest dst seen r m (All-map _ (Worse dst r) seen (λ x f e. absurd (f e)) h))
  | no miss ↦
      rw (pick_miss dst none r miss) (All-append (λ x. ¬ Matches dst x) seen (r ∷ []) h (miss, tt))
]
  where
    first : Matches dst r → pick dst none r ≡ some r
    first m = unfold pick in ground arith
pick-Answer dst seen (some c) r h = elim (ℕ_discrete (bit_and dst r.netmask) r.network) [
  | yes m ↦ elim (dec_lt (mask_of c) (mask_of r)) [
    | yes lt ↦ rw (longer m lt) (last-Longest dst seen r m (All-Worse dst seen c r h lt))
    | no ge ↦ rw (no_longer m ge) (keep-Longest dst seen c r h (λ _. omega arith))
  ]
  | no miss ↦
      rw (pick_miss dst (some c) r miss) (keep-Longest dst seen c r h (λ m. absurd (miss m)))
]
  where
    longer : Matches dst r → mask_of c < mask_of r → pick dst (some c) r ≡ some r
    longer m lt = unfold pick in ground arith

    no_longer : Matches dst r → ¬ (mask_of c < mask_of r) → pick dst (some c) r ≡ some c
    no_longer m ge = unfold pick in ground arith

pick_from-Answer :
    (dst : ℕ) (seen : List IpRoute) (candidate : Option IpRoute) (routes : List IpRoute)
    → Answer dst seen candidate
    → Answer dst (seen ++ routes) (pick_from dst candidate routes)
unfolding pick_from
pick_from-Answer dst seen candidate [] h = rw append-nil h
pick_from-Answer dst seen candidate (r ∷ routes) h = rw (← append_assoc seen (r ∷ []) routes) (
    pick_from-Answer dst (seen ++ r ∷ []) (pick dst candidate r) routes
      (pick-Answer dst seen candidate r h))

-- A lookup answers with the longest matching prefix, the earliest registered of equal ones, and
-- with none exactly when no registered route matches.
pub lookup_ip_route-Answer :
    (routes : IpRoutes) (dst : ℕ) → Answer dst (iter routes.entries) (lookup_ip_route routes dst)
unfolding lookup_ip_route
lookup_ip_route-Answer routes dst = pick_from-Answer dst [] none (iter routes.entries) tt
