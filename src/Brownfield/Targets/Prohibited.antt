-- ===== src/Brownfield/Targets/Prohibited.antt =====
-- What a list of prohibited targets makes the controller leave alone.
use application_gateway_kube.Common.{
  Text, bytes, List, [], ◌∷◌, ◌++◌, map, true, false, ◌≡◌, ◌⊎◌, refl, text_eq, text_beq_iff,
  returns, to_lower, arith, Bool-cases, inl, inr, is_nil, All, All-append,
}
use application_gateway_kube.Brownfield.Targets.{
  ProhibitedTarget, Target, contains, host_is_blacklisted, path_is_blacklisted, is_blacklisted,
  targets_of, get_target_blacklist,
}
use application_gateway_kube.Brownfield.Targets.Contains.{
  contains-to_lower, contains-wildcard, wildcard_lower, below_lower,
}
use application_gateway_kube.Brownfield.Targets.Blacklist.{
  Any, Any-append_left, Any-append_right, Covers, is_blacklisted_iff, path_is_blacklisted-Returns,
}

-- A prohibited target names a host if it leaves the host open or spells it, in any case.
abbrev pub NamesHost : ProhibitedTarget → Text → Type 0
NamesHost pt host = (pt.hostname ≡ []) ⊎ (to_lower host ≡ to_lower pt.hostname)

host_covered :
    (pt : ProhibitedTarget) (path : Text) (t : Target)
    → NamesHost pt t.hostname
    → host_is_blacklisted (record { hostname = pt.hostname; path = path }) t ≡ true
unfolding host_is_blacklisted
host_covered pt path t h =
    ground (
      arith,
      text_beq_iff pt.hostname [],
      text_beq_iff (to_lower t.hostname) (to_lower pt.hostname),
    )

get_target_blacklist-Covers :
    (t : Target) (pts : List ProhibitedTarget)
    → Any (λ pt. Any (λ bl. Covers bl t) (targets_of pt)) pts
    → Any (λ bl. Covers bl t) (get_target_blacklist pts)
unfolding get_target_blacklist
get_target_blacklist-Covers t [] h = elim h [ ]
get_target_blacklist-Covers t (pt ∷ pts) (inl h) =
    Any-append_left (λ bl. Covers bl t) (targets_of pt) (get_target_blacklist pts) h
get_target_blacklist-Covers t (pt ∷ pts) (inr h) =
    Any-append_right (λ bl. Covers bl t) (targets_of pt) (get_target_blacklist pts)
      (get_target_blacklist-Covers t pts h)

path_of_contains :
    (bl t : Target)
    → contains bl.path t.path ≡ returns true
    → path_is_blacklisted bl t ≡ returns true
unfolding path_is_blacklisted
path_of_contains bl t h = ground arith

-- A prohibited target leaves the paths open, or lists the directory `base`, in any case.
abbrev pub NamesDirectory : ProhibitedTarget → Text → Type 0
NamesDirectory pt base =
    (pt.paths ≡ []) ⊎ Any (λ p. to_lower p ≡ to_lower (base ++ bytes "/*")) pt.paths

contains_below :
    (p base rest : Text)
    → to_lower p ≡ to_lower (base ++ bytes "/*")
    → contains (to_lower p) (base ++ b'/' ∷ rest) ≡ returns true
contains_below p base rest e =
    rw
      (
        e,
        wildcard_lower base,
        ← contains-to_lower (to_lower base ++ bytes "/*") (base ++ b'/' ∷ rest),
        below_lower base rest,
      )
      (contains-wildcard (to_lower base) (to_lower rest))

module _ (pt : ProhibitedTarget) (host base rest : Text) (named : NamesHost pt host) where
  abbrev below : Target
  below = record { hostname = host; path = base ++ b'/' ∷ rest }

  paths_cover :
      (ps : List Text)
      → Any (λ p. to_lower p ≡ to_lower (base ++ bytes "/*")) ps
      → Any
          (λ bl. Covers bl below)
          (map (λ path. record { hostname = pt.hostname; path = to_lower path }) ps)
  paths_cover [] h = elim h [ ]
  paths_cover (p ∷ ps) (inl e) = inl (
    host_covered pt (to_lower p) below named,
    path_of_contains (record { hostname = pt.hostname; path = to_lower p }) below
        (contains_below p base rest e),
  )
  paths_cover (p ∷ ps) (inr h) = inr (paths_cover ps h)

  no_paths_cover : pt.paths ≡ [] → Any (λ bl. Covers bl below) (targets_of pt)
  unfolding targets_of
  no_paths_cover e = rw e (inl (host_covered pt [] below named, unfold path_is_blacklisted in refl))

  targets_cover : NamesDirectory pt base → Any (λ bl. Covers bl below) (targets_of pt)
  targets_cover (inl e) = no_paths_cover e
  targets_cover (inr h) = listed pt.paths refl
    where
      listed : (ps : List Text) → pt.paths ≡ ps → Any (λ bl. Covers bl below) (targets_of pt)
      listed [] e = no_paths_cover e
      listed (p ∷ ps) e = unfold targets_of in rw e (paths_cover (p ∷ ps) (rw e at h))

Any-Covers :
    (host base rest : Text) (pts : List ProhibitedTarget)
    → Any (λ pt. NamesHost pt host × NamesDirectory pt base) pts
    → Any
        (λ pt.
          Any
            (λ bl. Covers bl (record { hostname = host; path = base ++ b'/' ∷ rest }))
            (targets_of pt))
        pts
Any-Covers host base rest [] h = elim h [ ]
Any-Covers host base rest (pt ∷ pts) (inl (n, d)) = inl (targets_cover pt host base rest n d)
Any-Covers host base rest (pt ∷ pts) (inr h) = inr (Any-Covers host base rest pts h)

-- If a prohibited target names the host and the directory, every path below it is blacklisted.
pub prohibited_below :
    (pts : List ProhibitedTarget) (host base rest : Text)
    → Any (λ pt. NamesHost pt host × NamesDirectory pt base) pts
    → is_blacklisted
        (record { hostname = host; path = base ++ b'/' ∷ rest })
        (get_target_blacklist pts)
      ≡ returns true
prohibited_below pts host base rest h =
    (is_blacklisted_iff (record { hostname = host; path = base ++ b'/' ∷ rest })
        (get_target_blacklist pts)).1
      (get_target_blacklist-Covers (record { hostname = host; path = base ++ b'/' ∷ rest }) pts
        (Any-Covers host base rest pts h))

is_blacklisted_of_hosts :
    (t : Target) (blacklist : List Target)
    → All (λ bl. host_is_blacklisted bl t ≡ false) blacklist
    → is_blacklisted t blacklist ≡ returns false
unfolding is_blacklisted
is_blacklisted_of_hosts t [] h = refl
is_blacklisted_of_hosts t (bl ∷ blacklist) h =
    let (path, e) = path_is_blacklisted-Returns bl t in
    rw (e, h.0) (is_blacklisted_of_hosts t blacklist h.1)

module _ (t : Target) where
  abbrev Misses : Target → Type 0
  Misses bl = host_is_blacklisted bl t ≡ false

  host_missed :
      (pt : ProhibitedTarget) (path : Text)
      → ¬ NamesHost pt t.hostname
      → Misses (record { hostname = pt.hostname; path = path })
  unfolding host_is_blacklisted
  host_missed pt path h = ground (
    arith,
    text_beq_iff pt.hostname [],
    text_beq_iff (to_lower t.hostname) (to_lower pt.hostname),
  )

  paths_missed :
      (pt : ProhibitedTarget) (ps : List Text)
      → ¬ NamesHost pt t.hostname
      → All Misses (map (λ path. record { hostname = pt.hostname; path = to_lower path }) ps)
  paths_missed pt [] h = tt
  paths_missed pt (p ∷ ps) h = (host_missed pt (to_lower p) h, paths_missed pt ps h)

  targets_missed : (pt : ProhibitedTarget) → ¬ NamesHost pt t.hostname → All Misses (targets_of pt)
  unfolding targets_of
  targets_missed pt h = elim (Bool-cases (is_nil pt.paths)) [
    | inl e ↦ rw e (host_missed pt [] h, tt)
    | inr e ↦ rw e (paths_missed pt pt.paths h)
  ]

  blacklist_missed :
      (pts : List ProhibitedTarget)
      → All (λ pt. ¬ NamesHost pt t.hostname) pts
      → All Misses (get_target_blacklist pts)
  unfolding get_target_blacklist
  blacklist_missed [] h = tt
  blacklist_missed (pt ∷ pts) h =
      All-append Misses (targets_of pt) (get_target_blacklist pts) (targets_missed pt h.0)
        (blacklist_missed pts h.1)

-- A target whose host no prohibited target names is not blacklisted, whatever its path.
pub unnamed_host :
    (pts : List ProhibitedTarget) (t : Target)
    → All (λ pt. ¬ NamesHost pt t.hostname) pts
    → is_blacklisted t (get_target_blacklist pts) ≡ returns false
unnamed_host pts t h =
    is_blacklisted_of_hosts t (get_target_blacklist pts) (blacklist_missed t pts h)
