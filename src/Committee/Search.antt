-- ===== src/Committee/Search.antt =====
-- Finding the index of a krama id in the committee (nodeset.go).
use testing_go_moi.Prelude.Int.{pos}
use testing_go_moi.Prelude.{
  ℕ, zero, suc, ◌+◌, ◌≡◌, ◌≢◌, refl, ap, ◌∙◌, ◌⊎◌, inl, inr, none, some, List, [], ◌∷◌, ◌++◌, arith,
  Option-cases, length, get_elem?, get_elem?_lt, get_elem?-append_left, get_elem?-append_right,
}
use testing_go_moi.Committee.{
  ValidatorInfo, NodeSet, Committee, Member, get_krama_id, index_of, has_krama_id_from,
  has_krama_id,
}
use testing_go_moi.Committee.Lookup.{IsValid, all_infos, find_member-Describes}

-- A member that `HasKramaID` can answer by: at the index `i` stands the krama id.
index_of_found :
    (krama : ℕ) (infos : List ValidatorInfo) (j : ℕ)
    → index_of krama infos ≡ some j
    → (info : ValidatorInfo) × (get_elem? infos j ≡ some info) × (info.krama_id ≡ krama)
unfolding index_of
index_of_found krama [] j h = cc
index_of_found krama (info ∷ infos) zero h = (info, refl, ground arith)
index_of_found krama (info ∷ infos) (suc j) h = index_of_found krama infos j (ground arith)

abbrev pub NoneIs : ℕ → List ValidatorInfo → Type 0
NoneIs krama [] = Unit {0}
NoneIs krama (info ∷ infos) = (info.krama_id ≢ krama) × NoneIs krama infos

index_of_missing :
    (krama : ℕ) (infos : List ValidatorInfo) → index_of krama infos ≡ none → NoneIs krama infos
unfolding index_of
index_of_missing krama [] h = tt
index_of_missing krama (info ∷ infos) h =
    (λ e. ground arith, index_of_missing krama infos (ground arith))

NoneIs-append :
    (krama : ℕ) (xs ys : List ValidatorInfo)
    → NoneIs krama xs
    → NoneIs krama ys
    → NoneIs krama (xs ++ ys)
NoneIs-append krama [] ys h k = k
NoneIs-append krama (x ∷ xs) ys h k = (h.0, NoneIs-append krama xs ys h.1 k)

-- Where `HasKramaID` has come to: `offset` members are behind.
has_krama_id_from_found :
    (krama offset : ℕ) (sets : List NodeSet) (i : ℕ)
    → has_krama_id_from krama offset sets ≡ some i
    → (j : ℕ) × (i ≡ offset + j)
      × ((info : ValidatorInfo) × (get_elem? (all_infos sets) j ≡ some info)
          × (info.krama_id ≡ krama))
unfolding has_krama_id_from
has_krama_id_from_found krama offset [] i h = cc
has_krama_id_from_found krama offset (ns ∷ rest) i h =
    elim (Option-cases (index_of krama ns.infos)) [
      | inl e ↦
          later e
            (has_krama_id_from_found krama (offset + length ns.infos) rest i (ground (arith, e)))
      | inr (j, e) ↦ here j e (index_of_found krama ns.infos j e)
    ]
  where
    here :
        (j : ℕ)
        → index_of krama ns.infos ≡ some j
        → (info : ValidatorInfo) × (get_elem? ns.infos j ≡ some info) × (info.krama_id ≡ krama)
        → (k : ℕ) × (i ≡ offset + k)
          × ((info : ValidatorInfo) × (get_elem? (all_infos (ns ∷ rest)) k ≡ some info)
              × (info.krama_id ≡ krama))
    here j e (info, at, is) = (
      j,
      ground (arith, e),
      (
        info,
        get_elem?-append_left ns.infos (all_infos rest) j (get_elem?_lt ns.infos j at) ∙ at,
        is,
      ),
    )

    later :
        index_of krama ns.infos ≡ none
        → (j : ℕ) × (i ≡ offset + length ns.infos + j)
          × ((info : ValidatorInfo) × (get_elem? (all_infos rest) j ≡ some info)
              × (info.krama_id ≡ krama))
        → (k : ℕ) × (i ≡ offset + k)
          × ((info : ValidatorInfo) × (get_elem? (all_infos (ns ∷ rest)) k ≡ some info)
              × (info.krama_id ≡ krama))
    later e (j, is, (info, at, same)) = (
      length ns.infos + j,
      omega arith,
      (
        info,
        get_elem?-append_right ns.infos (all_infos rest) (length ns.infos + j) j refl ∙ at,
        same,
      ),
    )

has_krama_id_from_missing :
    (krama offset : ℕ) (sets : List NodeSet)
    → has_krama_id_from krama offset sets ≡ none
    → NoneIs krama (all_infos sets)
unfolding has_krama_id_from
has_krama_id_from_missing krama offset [] h = tt
has_krama_id_from_missing krama offset (ns ∷ rest) h =
    NoneIs-append krama ns.infos (all_infos rest) (index_of_missing krama ns.infos (ground arith))
      (has_krama_id_from_missing krama (offset + length ns.infos) rest (ground arith))

-- In a committee with right counters, HasKramaID gives an index at which GetKramaID finds the krama
-- id again.
pub get_krama_id-has_krama_id :
    (c : Committee) (krama i : ℕ)
    → IsValid c
    → has_krama_id c krama ≡ some i
    → (m : Member) × (get_krama_id c (pos i) ≡ some m) × (m.krama_id ≡ krama)
get_krama_id-has_krama_id c krama i v h =
    let (j, same, (info, at, is)) =
      has_krama_id_from_found krama 0 c.sets i (unfold has_krama_id in h) in
    let (m, found, described) =
      find_member-Describes c.sets 0 i (ap (get_elem? (all_infos c.sets)) (omega arith) ∙ at) in
    (
      m,
      unfold get_krama_id in
          ground (arith, found, v.counted, get_elem?_lt (all_infos c.sets) j at, same),
      described.0 ∙ is,
    )

-- HasKramaID gives none only when no member of the committee has the krama id.
pub has_krama_id_missing :
    (c : Committee) (krama : ℕ) → has_krama_id c krama ≡ none → NoneIs krama (all_infos c.sets)
unfolding has_krama_id
has_krama_id_missing c krama h = has_krama_id_from_missing krama 0 c.sets h

-- In a committee with right counters, HasKramaID gives an index at which GetKramaID finds the krama
-- id again, or none, and then no member has it.
pub has_krama_id_lem :
    (c : Committee) (krama : ℕ)
    → IsValid c
    → ((i : ℕ) × (has_krama_id c krama ≡ some i)
        × ((m : Member) × (get_krama_id c (pos i) ≡ some m) × (m.krama_id ≡ krama)))
      ⊎ ((has_krama_id c krama ≡ none) × NoneIs krama (all_infos c.sets))
has_krama_id_lem c krama v = elim (Option-cases (has_krama_id c krama)) [
  | inl e ↦ inr (e, has_krama_id_missing c krama e)
  | inr (i, e) ↦ inl (i, e, get_krama_id-has_krama_id c krama i v e)
]
