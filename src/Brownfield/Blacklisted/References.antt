-- ===== src/Brownfield/Blacklisted/References.antt =====
-- Which names a set of references holds, and how it splits a list.
use application_gateway_kube.Common.{
  Text, List, [], ◌∷◌, Option, none, some, Bool, true, false, ◌≡◌, refl, ◌↔◌, ◌⊎◌, inl, inr, member,
  member-insert, text_eq, arith, Bool-cases,
}
use application_gateway_kube.Gateway.{SubResource, PathRule}
use application_gateway_kube.Utils.{get_last_chunk_of_slashed}
use application_gateway_kube.Brownfield.Targets.Blacklist.{Any}
use application_gateway_kube.Brownfield.Existing.{NameSet, add_name}
use application_gateway_kube.Brownfield.Buckets.{split_by_name, add_reference}
use application_gateway_kube.Brownfield.Blacklisted.{add_references, add_path_rule_references}

abbrev IdEndsIn : Option Text → Text → Type 0
IdEndsIn none name = ⊥
IdEndsIn (some id) name = get_last_chunk_of_slashed id ≡ name

-- A reference whose ID ends in a name.
abbrev pub Refers : Option SubResource → Text → Type 0
Refers none name = ⊥
Refers (some ref) name = IdEndsIn ref.id name

add_id : Option Text → NameSet → NameSet
add_id none set = set
add_id (some id) set = add_name (get_last_chunk_of_slashed id) set

member-add_id :
    (id : Option Text) (name : Text) (set : NameSet)
    → (member name (add_reference (some (record { id = id })) set) ≡ true)
      ↔ (IdEndsIn id name ⊎ (member name set ≡ true))
unfolding add_reference
member-add_id none name set = ground arith
member-add_id (some id) name set = member-insert (get_last_chunk_of_slashed id) name tt set

-- Adding a reference adds the name that it leads to, and no other.
pub member-add_reference :
    (ref : Option SubResource) (name : Text) (set : NameSet)
    → (member name (add_reference ref set) ≡ true) ↔ (Refers ref name ⊎ (member name set ≡ true))
member-add_reference none name set = unfold add_reference in ground arith
member-add_reference (some ref) name set = member-add_id ref.id name set

module _ {A : Type 0} (add : A → NameSet → NameSet) (P : A → Text → Type 0)
    (law : (a : A) (name : Text) (set : NameSet)
      → (member name (add a set) ≡ true) ↔ (P a name ⊎ (member name set ≡ true))) where
  pub member-add_references :
      (xs : List A) (name : Text) (set : NameSet)
      → (member name (add_references add xs set) ≡ true)
        ↔ (Any (λ a. P a name) xs ⊎ (member name set ≡ true))
  unfolding add_references
  member-add_references [] name set = (inr, λ h. elim h [ inl n ↦ absurd n | inr m ↦ m ])
  member-add_references (x ∷ xs) name set =
      let later = member-add_references xs name (add x set) in
      let here = law x name set in
      (
        λ m. elim (later.0 m) [
          | inl a ↦ inl (inr a)
          | inr n ↦ elim (here.0 n) [ inl p ↦ inl (inl p) | inr o ↦ inr o ]
        ],
        λ h. elim h [
          | inl (inl p) ↦ later.1 (inr (here.1 (inl p)))
          | inl (inr a) ↦ later.1 (inl a)
          | inr o ↦ later.1 (inr (here.1 (inr o)))
        ],
      )

-- A path rule or a default of a path map that leads to a name.
abbrev pub AnyRule : (PathRule → Text → Type 0) → Option (List PathRule) → Text → Type 0
AnyRule P none name = ⊥
AnyRule P (some rules) name = Any (λ rule. P rule name) rules

pub member-add_path_rule_references :
    (field : PathRule → Option SubResource) (rules : Option (List PathRule)) (name : Text)
    (set : NameSet)
    → (member name (add_path_rule_references (λ rule. add_reference (field rule)) rules set) ≡ true)
      ↔ (AnyRule (λ rule. Refers (field rule)) rules name ⊎ (member name set ≡ true))
member-add_path_rule_references field none name set =
    (inr, λ h. elim h [ inl n ↦ absurd n | inr m ↦ m ])
member-add_path_rule_references field (some rules) name set =
    member-add_references (λ rule. add_reference (field rule)) (λ rule. Refers (field rule))
      (λ rule. member-add_reference (field rule)) rules name set

-- An item of a list.
abbrev pub In : {A : Type 0} → A → List A → Type 0
In a [] = ⊥
In a (x ∷ xs) = (a ≡ x) ⊎ In a xs

module _ {A : Type 0} (name : A → Text) (set : NameSet) where
  -- What is split off by a set of names is what the set names.
  pub In-split_by_name :
      (xs : List A) (a : A)
      → In a (split_by_name name set xs).0 ↔ (In a xs × (member (name a) set ≡ true))
  unfolding split_by_name
  In-split_by_name [] a = (λ h. absurd h, λ h. absurd h.0)
  In-split_by_name (x ∷ xs) a =
      let ih = In-split_by_name xs a in
      elim (Bool-cases (member (name x) set)) [
        | inl e ↦ rw e (
          λ h. elim h [ inl p ↦ (inl p, rw p e) | inr q ↦ let (i, m) = ih.0 q in (inr i, m) ],
          λ h. elim h.0 [ inl p ↦ inl p | inr q ↦ inr (ih.1 (q, h.1)) ],
        )
        | inr e ↦ rw e (
          λ h. let (i, m) = ih.0 h in (inr i, m),
          λ h. elim h.0 [ inl p ↦ absurd (true_of p h.1 e) | inr q ↦ ih.1 (q, h.1) ],
        )
      ]
    where
      true_of : a ≡ x → member (name a) set ≡ true → member (name x) set ≡ false → ⊥
      true_of p m e = let n : member (name x) set ≡ true = rw p at m in cc

  -- The rest is what the set does not name.
  pub In-split_by_name_rest :
      (xs : List A) (a : A)
      → In a (split_by_name name set xs).1 ↔ (In a xs × (member (name a) set ≡ false))
  unfolding split_by_name
  In-split_by_name_rest [] a = (λ h. absurd h, λ h. absurd h.0)
  In-split_by_name_rest (x ∷ xs) a =
      let ih = In-split_by_name_rest xs a in
      elim (Bool-cases (member (name x) set)) [
        | inr e ↦ rw e (
          λ h. elim h [ inl p ↦ (inl p, rw p e) | inr q ↦ let (i, m) = ih.0 q in (inr i, m) ],
          λ h. elim h.0 [ inl p ↦ inl p | inr q ↦ inr (ih.1 (q, h.1)) ],
        )
        | inl e ↦ rw e (
          λ h. let (i, m) = ih.0 h in (inr i, m),
          λ h. elim h.0 [ inl p ↦ absurd (false_of p h.1 e) | inr q ↦ ih.1 (q, h.1) ],
        )
      ]
    where
      false_of : a ≡ x → member (name a) set ≡ false → member (name x) set ≡ true → ⊥
      false_of p m e = let n : member (name x) set ≡ false = rw p at m in cc

-- A list is split by what its items' names satisfy.
abbrev pub SplitsBy :
    {A : Type 0} → (A → Text) → (Text → Type 0) → List A → List A × List A → Type 0
SplitsBy {A} name P xs out =
    (a : A) → (In a out.0 ↔ (In a xs × P (name a))) × (In a out.1 ↔ (In a xs × (¬ P (name a))))

false_of_not : (b : Bool) → ¬ (b ≡ true) → b ≡ false
false_of_not true h = absurd (h refl)
false_of_not false h = refl

pub split_by_name-SplitsBy :
    {A : Type 0} (name : A → Text) (P : Text → Type 0) (set : NameSet) (xs : List A)
    → ((k : Text) → (member k set ≡ true) ↔ P k)
    → SplitsBy name P xs (split_by_name name set xs)
split_by_name-SplitsBy name P set xs law a =
    let yes_part = In-split_by_name name set xs a in
    let no_part = In-split_by_name_rest name set xs a in
    (
      (
        λ h. let (i, m) = yes_part.0 h in (i, (law (name a)).0 m),
        λ h. yes_part.1 (h.0, (law (name a)).1 h.1),
      ),
      (
        λ h. let (i, m) = no_part.0 h in (i, λ p. let t = (law (name a)).1 p in cc),
        λ h. no_part.1 (h.0, false_of_not (member (name a) set) (λ m. h.1 ((law (name a)).0 m))),
      ),
    )
