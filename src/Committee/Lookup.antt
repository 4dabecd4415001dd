-- ===== src/Committee/Lookup.antt =====
-- Finding a member of the committee by index (nodeset.go).
use testing_go_moi.Prelude.Int.{pos}
use testing_go_moi.Prelude.{
  ℕ, ◌+◌, ◌-◌, ◌≤◌, ◌<◌, ◌≡◌, refl, sym, ◌∙◌, Option, none, some, List, [], ◌∷◌, ◌++◌, arith,
  dec_lt, length, length-append, get_elem?, get_elem?_in_range, get_elem?_past,
  get_elem?-append_left, get_elem?-append_right, subst,
}
use testing_go_moi.Committee.{
  ValidatorInfo, NodeSet, Committee, Member, append_node_set, new_committee, slots_in, other_slots,
  member, find_member, get_krama_id,
}

-- The members in the order of their indices.
abbrev pub all_infos : List NodeSet → List ValidatorInfo
all_infos [] = []
all_infos (ns ∷ rest) = ns.infos ++ all_infos rest

-- The counters of the committee agree with its sets.
pub record IsValid (c : Committee) : Type 0 where
  pub counted : c.total_nodes ≡ length (all_infos c.sets)
  pub sized : c.size ≡ length c.sets

length-all_infos_append :
    (sets : List NodeSet) (ns : NodeSet)
    → length (all_infos (sets ++ ns ∷ [])) ≡ length (all_infos sets) + length ns.infos
length-all_infos_append [] ns = omega (arith, length-append ns.infos [])
length-all_infos_append (s ∷ sets) ns = omega (
  arith,
  length-append s.infos (all_infos (sets ++ ns ∷ [])),
  length-append s.infos (all_infos sets),
  length-all_infos_append sets ns,
)

pub new_committee-IsValid : IsValid new_committee
unfolding new_committee
new_committee-IsValid = record { counted = refl; sized = refl }

-- Appending a set, or none, keeps the committee's counters of members and of sets right.
pub append_node_set-IsValid :
    (c : Committee) (hash : ℕ) (ns : Option NodeSet)
    → IsValid c
    → IsValid (append_node_set c hash ns)
unfolding append_node_set
append_node_set-IsValid c hash none v = v
append_node_set-IsValid c hash (some ns) v = record {
  counted = omega (arith, v.counted, length-all_infos_append c.sets ns);
  sized = omega (arith, v.sized, length-append c.sets (ns ∷ []));
}

abbrev pub AllBelow : ℕ → List ℕ → Type 0
AllBelow n [] = Unit {0}
AllBelow n (j ∷ js) = (j < n) × AllBelow n js

slots_in-AllBelow :
    (n krama j : ℕ) (infos : List ValidatorInfo) → j < n → AllBelow n (slots_in krama j infos)
unfolding slots_in
slots_in-AllBelow n krama j [] h = tt
slots_in-AllBelow n krama j (info ∷ infos) h = ground (arith, slots_in-AllBelow n krama j infos h)

AllBelow-append : (n : ℕ) (xs ys : List ℕ) → AllBelow n xs → AllBelow n ys → AllBelow n (xs ++ ys)
AllBelow-append n [] ys h k = k
AllBelow-append n (x ∷ xs) ys h k = (h.0, AllBelow-append n xs ys h.1 k)

other_slots-AllBelow :
    (n krama j : ℕ) (sets : List NodeSet)
    → j + length sets ≤ n
    → AllBelow n (other_slots krama j sets)
unfolding other_slots
other_slots-AllBelow n krama j [] h = tt
other_slots-AllBelow n krama j (ns ∷ []) h = tt
other_slots-AllBelow n krama j (ns ∷ next ∷ rest) h =
    AllBelow-append n (slots_in krama j ns.infos) (other_slots krama (j + 1) (next ∷ rest))
      (slots_in-AllBelow n krama j ns.infos (omega arith))
      (other_slots-AllBelow n krama (j + 1) (next ∷ rest) (omega arith))

-- What is found for the member `info`.
abbrev pub Describes : ℕ → ValidatorInfo → Member → Type 0
Describes n info m =
    (m.krama_id ≡ info.krama_id) × (m.public_key ≡ info.public_key) × AllBelow n m.slots

pub find_member-Describes :
    (sets : List NodeSet) (v i : ℕ) {info : ValidatorInfo}
    → get_elem? (all_infos sets) i ≡ some info
    → (m : Member) × (find_member sets v i ≡ some m) × Describes (v + length sets) info m
unfolding find_member
find_member-Describes [] v i h = cc
find_member-Describes (ns ∷ rest) v i {info} h = elim (dec_lt i (length ns.infos)) [
  | yes p ↦ (
    member v i rest info,
    rw (sym (get_elem?-append_left ns.infos (all_infos rest) i p) ∙ h, find_member),
    (refl, refl, (omega arith, other_slots-AllBelow _ info.krama_id (v + 1) rest (omega arith))),
  )
  | no p ↦ later p (find_member-Describes rest (v + 1) (i - length ns.infos) (next p))
]
  where
    next : ¬ (i < length ns.infos) → get_elem? (all_infos rest) (i - length ns.infos) ≡ some info
    next p =
        sym (get_elem?-append_right ns.infos (all_infos rest) i (i - length ns.infos) (omega arith))
        ∙ h

    later :
        ¬ (i < length ns.infos)
        → (m : Member) × (find_member rest (v + 1) (i - length ns.infos) ≡ some m)
          × Describes (v + 1 + length rest) info m
        → (m : Member) × (find_member (ns ∷ rest) v i ≡ some m)
          × Describes (v + length (ns ∷ rest)) info m
    later p (m, found, described) =
        let same : v + length (ns ∷ rest) ≡ v + 1 + length rest = omega arith in
        (m, rw (get_elem?_past ns.infos i (omega arith), find_member) found, rw same described)

-- In a committee with right counters, GetKramaID finds every index below the number of members, with
-- the krama id and key of the member that the sets have there in order, and the slots that it gives
-- are positions of sets.
pub get_krama_id_in_range :
    (c : Committee) (i : ℕ)
    → IsValid c
    → i < c.total_nodes
    → (info : ValidatorInfo) × (get_elem? (all_infos c.sets) i ≡ some info)
      × ((m : Member) × (get_krama_id c (pos i) ≡ some m) × Describes c.size info m)
get_krama_id_in_range c i v h =
    let (info, here) = get_elem?_in_range (all_infos c.sets) i (omega (arith, v.counted)) in
    let (m, found, described) = find_member-Describes c.sets 0 i here in
    (
      info,
      here,
      (
        m,
        unfold get_krama_id in ground (arith, found),
        (described.0, described.1, subst (λ n. AllBelow n m.slots) size described.2),
      ),
    )
  where
    size : 0 + length c.sets ≡ c.size
    size = omega (arith, v.sized)

-- It finds nothing at a negative index or past the last member.
pub get_krama_id_past : (c : Committee) (i : ℕ) → c.total_nodes ≤ i → get_krama_id c (pos i) ≡ none
unfolding get_krama_id
get_krama_id_past c i h = ground arith
