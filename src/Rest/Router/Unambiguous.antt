-- ===== src/Rest/Router/Unambiguous.antt =====
-- No request has two routes (router.go).
use energy_plant_monitoring.Base.{
  ◌≤◌, String, Bool, true, false, ◌&&◌, ◌≡◌, refl, List, [], ◌∷◌, length, if◌then◌else◌, str_eq,
  eq_iff, arith,
}
use energy_plant_monitoring.Rest.Router.{
  Verb, same_verb, Segment, literal, parameter, Route, setup_routes, path_fits, fits, matches,
  matching,
}

abbrev may_share : Segment → Segment → Bool
may_share (literal a) (literal b) = str_eq a b
may_share _ _ = true

-- a path that fits both may exist
abbrev overlap : List Segment → List Segment → Bool
overlap [] [] = true
overlap (s ∷ p) (t ∷ q) = let rest = overlap p q in may_share s t && rest
overlap _ _ = false

abbrev clash : Route → Route → Bool
clash r t = same_verb r.verb t.verb && overlap r.path t.path

abbrev clashes_none : Route → List Route → Bool
clashes_none r [] = true
clashes_none r (t ∷ routes) = let rest = clashes_none r routes in if clash r t then false else rest

abbrev clash_free : List Route → Bool
clash_free [] = true
clash_free (r ∷ routes) = let rest = clash_free routes in clashes_none r routes && rest

fits-share :
    (s t : Segment) (segment : String)
    → fits s segment ≡ true
    → fits t segment ≡ true
    → may_share s t ≡ true
fits-share (literal a) (literal b) segment h k =
    ground (arith, eq_iff segment a, eq_iff segment b, eq_iff a b)
fits-share (literal a) (parameter b) segment h k = refl
fits-share (parameter a) t segment h k = refl

path_fits-overlap :
    (p q : List Segment) (segments : List String)
    → path_fits p segments ≡ true
    → path_fits q segments ≡ true
    → overlap p q ≡ true
path_fits-overlap [] [] [] h k = refl
path_fits-overlap [] (t ∷ q) [] h k = absurd (ground arith)
path_fits-overlap (s ∷ p) q [] h k = absurd (ground arith)
path_fits-overlap [] q (x ∷ segments) h k = absurd (ground arith)
path_fits-overlap (s ∷ p) [] (x ∷ segments) h k = absurd (ground arith)
path_fits-overlap (s ∷ p) (t ∷ q) (x ∷ segments) h k =
    ground (arith, fits-share s t x, path_fits-overlap p q segments)

same_verb_trans :
    (u v w : Verb) → same_verb u w ≡ true → same_verb v w ≡ true → same_verb u v ≡ true
same_verb_trans u v w h k = ground arith

matching_none :
    (verb : Verb) (segments : List String) (r : Route) (routes : List Route)
    → matches verb segments r ≡ true
    → clashes_none r routes ≡ true
    → length (matching verb segments routes) ≡ 0
matching_none verb segments r [] h k = refl
matching_none verb segments r (t ∷ routes) h k = ground (
  arith,
  matching_none verb segments r routes,
  path_fits-overlap r.path t.path segments,
  same_verb_trans r.verb t.verb verb,
)

clash_free-matching :
    (verb : Verb) (segments : List String) (routes : List Route)
    → clash_free routes ≡ true
    → length (matching verb segments routes) ≤ 1
clash_free-matching verb segments [] h = ground arith
clash_free-matching verb segments (r ∷ routes) h =
    ground (arith, matching_none verb segments r routes, clash_free-matching verb segments routes)

setup_routes-clash_free : clash_free setup_routes ≡ true
unfolding setup_routes
setup_routes-clash_free = refl

-- Every method and path has at most one route of the API.
pub one_route :
    (verb : Verb) (segments : List String) → length (matching verb segments setup_routes) ≤ 1
one_route verb segments = clash_free-matching verb segments setup_routes setup_routes-clash_free
