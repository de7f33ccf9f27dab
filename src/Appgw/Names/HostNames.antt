-- ===== src/Appgw/Names/HostNames.antt =====
-- What the host names of a listener are after they are set.
use application_gateway_kube.Common.{
  ℕ, Text, List, [], ◌∷◌, ◌≡◌, refl, is_nil, false, if◌then◌else◌, zero, suc,
}
use application_gateway_kube.Appgw.Names.{
  ListenerIdentifier, take, set_names, set_host_names, non_empty, get_host_names,
}

abbrev pub empty_places : ℕ → List Text
empty_places zero = []
empty_places (suc n) = [] ∷ empty_places n

abbrev pub first_or_empty : List Text → Text
first_or_empty [] = []
first_or_empty (name ∷ names) = name

non_empty-empty_places : (n : ℕ) → non_empty (empty_places n) ≡ []
unfolding non_empty
non_empty-empty_places zero = refl
non_empty-empty_places (suc n) = non_empty-empty_places n

non_empty-set_names :
    (host : Text) (n : ℕ) (names : List Text)
    → non_empty (set_names host (empty_places n) names).1 ≡ non_empty (take n names)
unfolding set_names take non_empty
non_empty-set_names host zero names = refl
non_empty-set_names host (suc n) [] = non_empty-empty_places n
non_empty-set_names host (suc n) (name ∷ names) =
    rw (non_empty-set_names (if is_nil host then name else host) n names) refl

host_kept :
    (host : Text) (places names : List Text)
    → is_nil host ≡ false
    → (set_names host places names).0 ≡ host
unfolding set_names
host_kept host [] names h = refl
host_kept host (place ∷ places) [] h = refl
host_kept host (place ∷ places) (name ∷ names) h = rw h (host_kept host places names h)

host-set_names :
    (n : ℕ) (names : List Text)
    → (set_names [] (empty_places n) names).0 ≡ first_or_empty (non_empty (take n names))
unfolding set_names take non_empty
host-set_names zero names = refl
host-set_names (suc n) [] = refl
host-set_names (suc n) ([] ∷ names) = host-set_names n names
host-set_names (suc n) ((c ∷ name) ∷ names) = host_kept (c ∷ name) (empty_places n) names refl

-- Setting the host names of a fresh listener keeps those of the first five that are not empty, and
-- the first of them is its host name.
pub get_host_names-set_host_names :
    (id : ListenerIdentifier) (names : List Text)
    → id.host_names ≡ empty_places 5
    → (get_host_names (set_host_names id names) ≡ non_empty (take 5 names))
      × ((set_host_names id names).host_name ≡ first_or_empty (non_empty (take 5 names)))
unfolding get_host_names set_host_names
get_host_names-set_host_names id names fresh =
    rw fresh (non_empty-set_names [] 5 names, host-set_names 5 names)
