-- ===== src/Brownfield/Buckets.antt =====
-- The loops that the files of pkg/brownfield share: the split of a list into what is blacklisted and
-- what is not, the set of names that references lead to, and the names that are logged.
use application_gateway_kube.Common.{
  Text, bytes, List, [], ◌∷◌, Option, none, some, Bool, true, false, not, ◌&&◌, Run, returns, ◌>>=◌,
  map, join, is_nil, GoMap, member, text_eq, if◌then◌else◌,
}
use application_gateway_kube.Common.Order.{MapOrder}
use application_gateway_kube.Common.Uniq.{put_all, range_values}
use application_gateway_kube.Gateway.{SubResource}
use application_gateway_kube.Utils.{get_last_chunk_of_slashed}
use application_gateway_kube.Brownfield.Existing.{NameSet, add_name}

module _ {A : Type 0} where
  -- Blacklisted and not blacklisted, by a test that may panic.
  unfoldable pub split_by : (A → Run Bool) → List A → Run (List A × List A)
  split_by test [] = returns ([], [])
  split_by test (x ∷ xs) = do
    listed ← test x
    rest ← split_by test xs
    returns (if listed then (x ∷ rest.0, rest.1) else (rest.0, x ∷ rest.1))

  -- The same by a set of names.
  unfoldable pub split_by_name : (A → Text) → NameSet → List A → List A × List A
  split_by_name name set [] = ([], [])
  split_by_name name set (x ∷ xs) =
      let rest = split_by_name name set xs in
      if member (name x) set then (x ∷ rest.0, rest.1) else (rest.0, x ∷ rest.1)

  -- The items of a map that neither set has.
  unfoldable pub not_in : (A → Text) → GoMap Text A → GoMap Text A → List A → List A
  not_in name blacklisted managed [] = []
  not_in name blacklisted managed (x ∷ xs) =
      let rest = not_in name blacklisted managed xs in
      if not (member (name x) blacklisted) && not (member (name x) managed) then x ∷ rest else rest

  -- `garbage` of the functions that log: what exists, is not blacklisted and is not created anew.
  unfoldable pub garbage : MapOrder → (A → Text) → List A → List A → List A → List A
  garbage order name existing_blacklisted existing_non_blacklisted managed =
      not_in name (put_all name [] existing_blacklisted) (put_all name [] managed)
        (range_values name order (put_all name [] existing_non_blacklisted))

  -- `strings.Join(names, ", ")`
  unfoldable pub get_names : (A → Text) → List A → Text
  get_names name xs = join (bytes ", ") (map name xs)

  unfoldable pub get_names_or_na : (A → Text) → List A → Text
  get_names_or_na name xs = if is_nil xs then bytes "n/a" else get_names name xs

-- What the three log lines of a component list: created, retained and removed.
pub record LogLines : Type 0 where
  pub created : Text
  pub retained : Text
  pub removed : Text

-- `if ref != nil && ref.ID != nil { set[GetLastChunkOfSlashed(*ref.ID)] = nil }`
unfoldable pub add_reference : Option SubResource → NameSet → NameSet
add_reference none set = set
add_reference (some ref) set = elim ref.id [
  | none ↦ set
  | some id ↦ add_name (get_last_chunk_of_slashed id) set
]

-- `ref != nil && ref.ID != nil`
abbrev pub has_id : Option SubResource → Bool
has_id none = false
has_id (some ref) = elim ref.id [ none ↦ false | some id ↦ true ]
