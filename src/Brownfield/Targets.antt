-- ===== src/Brownfield/Targets.antt =====
-- pkg/brownfield/targets.go: the targets (host and path) that the controller may not touch.
pub mod Blacklist
pub mod Contains
pub mod Prohibited
use application_gateway_kube.Common.{
  ℕ, Text, bytes, List, [], ◌∷◌, ◌++◌, map, Bool, true, false, not, ◌&&◌, ◌||◌, ◌==◌, text_eq, ltb,
  length, if◌then◌else◌, Run, returns, panics, ◌>>=◌, to_lower, split, trim_right, ends_with,
  is_nil,
}

pub record ProhibitedTarget : Type 0 where
  pub hostname : Text
  pub paths : List Text

pub record Target : Type 0 where
  pub hostname : Text
  pub path : Text

-- The loop over the chunks of two paths; an index past the other path's chunks panics.
unfoldable pub chunks_contain : List Text → List Text → Run Bool
chunks_contain [] others = returns false
chunks_contain (c ∷ cs) others =
    let rest : Run Bool = elim others [
      | [] ↦ panics
      | d ∷ ds ↦ let more = chunks_contain cs ds in if c == d then more else returns false
    ] in
    if c == bytes "*" then returns true else rest

-- `TargetPath.contains`
unfoldable pub contains : Text → Text → Run Bool
unfolding chunks_contain split trim_right ends_with to_lower
contains p other =
    if p == [] || (p == bytes "*" || p == bytes "/*")
    then returns true
    else if not (ends_with b'*' (to_lower p))
    then returns (to_lower p == to_lower other)
    else if trim_right (bytes "/*") (to_lower p) == trim_right (bytes "/*") (to_lower other)
    then returns true
    else if ltb (length other) (length p)
    then returns false
    else chunks_contain (split b'/' (to_lower p)) (split b'/' (to_lower other))

unfoldable pub host_is_blacklisted : Target → Target → Bool
host_is_blacklisted bl t = bl.hostname == [] || to_lower t.hostname == to_lower bl.hostname

unfoldable pub path_is_blacklisted : Target → Target → Run Bool
path_is_blacklisted bl t =
    if bl.path == [] || (bl.path == bytes "/*" || to_lower t.path == to_lower bl.path)
    then returns true
    else contains bl.path t.path

-- `Target.IsBlacklisted`
unfoldable pub is_blacklisted : Target → List Target → Run Bool
is_blacklisted t [] = returns false
is_blacklisted t (bl ∷ blacklist) =
    let rest = is_blacklisted t blacklist in
    do
      path ← path_is_blacklisted bl t
      if host_is_blacklisted bl t && path then returns true else rest

-- What one prohibited target adds to the blacklist.
unfoldable pub targets_of : ProhibitedTarget → List Target
targets_of pt =
    if is_nil pt.paths
    then record { hostname = pt.hostname; path = [] } ∷ []
    else map (λ path. record { hostname = pt.hostname; path = to_lower path }) pt.paths

-- `GetTargetBlacklist`
unfoldable pub get_target_blacklist : List ProhibitedTarget → List Target
get_target_blacklist [] = []
get_target_blacklist (pt ∷ pts) = targets_of pt ++ get_target_blacklist pts
