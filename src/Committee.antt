-- ===== src/Committee.antt =====
-- consensus/types/nodeset.go, and the quorum of consensus/types/ics.go: the committee of a cluster,
-- one set of validators for each group of accounts and a last set that is drawn at random.
--
-- Krama ids, keys, hashes and validator ids are only compared, so natural numbers stand for them; 0
-- is the empty krama id and the nil hash. `AppendNodeSet` drops a nil set and nothing else adds one,
-- so the committee holds no nil set. Indices are `int32` in the source: an integer. Locks, logging
-- and the prepared messages of the validators are left out.
pub mod Lookup
pub mod Search
pub mod Context
pub mod Quorum
pub mod Responses
use testing_go_moi.Prelude.Int.{ℤ, pos, negsuc}
use testing_go_moi.Prelude.{
  ℕ, zero, suc, ◌+◌, ◌-◌, ◌*◌, ◌/◌, ◌%◌, ◌^◌, Bool, true, false, not, ◌&&◌, Option, none, some,
  List, [], ◌∷◌, ◌++◌, ltb, leb, ◌==◌, if◌then◌else◌, length, get_elem?, set, replicate, take, Map,
  lookup, insert,
}
use testing_go_moi.Bits.{
  ArrayOfBits, new_array_of_bits, get_index_nil, set_index, true_indices_size, get_true_indices,
}

pub record ValidatorInfo : Type 0 where
  pub id : ℕ
  pub krama_id : ℕ
  pub public_key : ℕ
  pub voting_power : ℕ

pub data CounterType : Type 0 where
  vote_counter majority_counter : CounterType

pub record Response : Type 0 where
  pub bits : Option ArrayOfBits
  pub count : ℕ

-- `Responses` has an entry for each of the two counters.
pub record NodeSet : Type 0 where
  pub infos : List ValidatorInfo
  pub votes : Response
  pub majority : Response
  pub excluded_from_ics : Bool
  pub set_size_without_delta : ℕ

pub record NodesetData : Type 0 where
  pub position : ℕ
  pub ps_count : ℕ
  pub excluded_ps_count : ℕ

pub record Committee : Type 0 where
  pub sets : List NodeSet
  pub consensus_nodes_hash : Map NodesetData
  pub total_nodes : ℕ
  pub size : ℕ

-- `uint32`
abbrev pub u32 : ℕ → ℕ
u32 n = n % 2 ^ 32

unfoldable pub new_node_set : List ValidatorInfo → ℕ → NodeSet
new_node_set vals required = record {
  infos = vals;
  votes = record { bits = new_array_of_bits (length vals); count = 0 };
  majority = record { bits = new_array_of_bits (length vals); count = 0 };
  excluded_from_ics = false;
  set_size_without_delta = required;
}

unfoldable pub response : NodeSet → CounterType → Response
response ns vote_counter = ns.votes
response ns majority_counter = ns.majority

unfoldable pub store_response : NodeSet → CounterType → Response → NodeSet
store_response ns vote_counter r = record ns { votes = r }
store_response ns majority_counter r = record ns { majority = r }

abbrev pub get_resp_count : NodeSet → CounterType → ℕ
get_resp_count ns ct = (response ns ct).count

abbrev pub set_bit : Option ArrayOfBits → ℕ → Bool → Option ArrayOfBits
set_bit none i v = none
set_bit (some b) i v = some (set_index b i v).0

-- A second response of a validator changes nothing.
unfoldable pub update_response : NodeSet → CounterType → ℕ → Bool → NodeSet
update_response ns ct i v =
    let r = response ns ct in
    if get_index_nil r.bits i
    then ns
    else store_response ns ct (record { bits = set_bit r.bits i v; count = r.count + 1 })

unfoldable pub new_committee : Committee
new_committee = record { sets = []; consensus_nodes_hash = []; total_nodes = 0; size = 0 }

-- The random set is appended under the nil hash, which is not stored.
unfoldable pub append_node_set : Committee → ℕ → Option NodeSet → Committee
append_node_set c hash none = c
append_node_set c hash (some ns) = record {
  sets = c.sets ++ ns ∷ [];
  total_nodes = c.total_nodes + length ns.infos;
  size = c.size + 1;
  consensus_nodes_hash =
      if hash == 0
      then c.consensus_nodes_hash
      else insert hash (record { position = length c.sets; ps_count = 1; excluded_ps_count = 0 })
          c.consensus_nodes_hash;
}

-- `count*2/3 + 1` on `uint32`
abbrev pub two_thirds : ℕ → ℕ
two_thirds count = u32 (u32 (count * 2) / 3 + 1)

unfoldable pub participant_quorum : NodeSet → ℕ
participant_quorum ns =
    if ns.set_size_without_delta == 0 then 0 else two_thirds ns.set_size_without_delta

-- `RandomQuorumSize`, of the last set.
unfoldable pub random_quorum_size : NodeSet → ℕ
random_quorum_size ns = two_thirds ns.set_size_without_delta

-- `GetQuorum`: 0 for an excluded set, and the random quorum for the last.
unfoldable pub quorum_of : List NodeSet → List ℕ
quorum_of [] = []
quorum_of (ns ∷ []) = random_quorum_size ns ∷ []
quorum_of (ns ∷ next ∷ rest) =
    (if ns.excluded_from_ics then 0 else participant_quorum ns) ∷ quorum_of (next ∷ rest)

unfoldable pub get_quorum : Committee → List ℕ
get_quorum c = quorum_of c.sets

-- The positions from `j` on, the last set apart, at which the krama id stands; once for each time.
unfoldable pub slots_in : ℕ → ℕ → List ValidatorInfo → List ℕ
slots_in krama j [] = []
slots_in krama j (info ∷ infos) =
    let rest = slots_in krama j infos in if info.krama_id == krama then j ∷ rest else rest

unfoldable pub other_slots : ℕ → ℕ → List NodeSet → List ℕ
other_slots krama j [] = []
other_slots krama j (ns ∷ []) = []
other_slots krama j (ns ∷ next ∷ rest) =
    slots_in krama j ns.infos ++ other_slots krama (j + 1) (next ∷ rest)

-- What `GetKramaID` finds; `none` is its `nil, -1, "", nil`.
pub record Member : Type 0 where
  pub slots : List ℕ
  pub slot_index : ℕ
  pub krama_id : ℕ
  pub public_key : ℕ

abbrev pub member : ℕ → ℕ → List NodeSet → ValidatorInfo → Member
member v i rest info = record {
  slots = v ∷ other_slots info.krama_id (v + 1) rest;
  slot_index = i;
  krama_id = info.krama_id;
  public_key = info.public_key;
}

-- The loop over the sets: `v` is the position of the first, and `i` the index left to go.
unfoldable pub find_member : List NodeSet → ℕ → ℕ → Option Member
find_member [] v i = none
find_member (ns ∷ rest) v i = elim (get_elem? ns.infos i) [
  | some info ↦ some (member v i rest info)
  | none ↦ find_member rest (v + 1) (i - length ns.infos)
]

unfoldable pub get_krama_id : Committee → ℤ → Option Member
get_krama_id c (negsuc n) = none
get_krama_id c (pos i) = if leb c.total_nodes i then none else find_member c.sets 0 i

-- `GetByIndex` of the cluster state: the krama id and the key, or the empty id.
unfoldable pub get_by_index : Committee → ℤ → ℕ × ℕ
get_by_index c i = elim (get_krama_id c i) [ none ↦ (0, 0) | some m ↦ (m.krama_id, m.public_key) ]

-- The place of a krama id in a list of validators.
unfoldable pub index_of : ℕ → List ValidatorInfo → Option ℕ
index_of krama [] = none
index_of krama (info ∷ infos) = elim (info.krama_id == krama) [
  | true ↦ some 0
  | false ↦ elim (index_of krama infos) [ none ↦ none | some i ↦ some (suc i) ]
]

-- `HasKramaID`: the index in the committee, counted over all sets; `none` is its -1.
unfoldable pub has_krama_id_from : ℕ → ℕ → List NodeSet → Option ℕ
has_krama_id_from krama offset [] = none
has_krama_id_from krama offset (ns ∷ rest) = elim (index_of krama ns.infos) [
  | some j ↦ some (offset + j)
  | none ↦ has_krama_id_from krama (offset + length ns.infos) rest
]

unfoldable pub has_krama_id : Committee → ℕ → Option ℕ
has_krama_id c krama = has_krama_id_from krama 0 c.sets

-- `UpdateValidatorResponse` at one index: the key, and the sets with the response stored.
unfoldable pub respond_at : CounterType → List NodeSet → ℕ → Option (ℕ × List NodeSet)
respond_at ct [] i = none
respond_at ct (ns ∷ rest) i = elim (get_elem? ns.infos i) [
  | some info ↦ some (info.public_key, update_response ns ct i true ∷ rest)
  | none ↦ elim (respond_at ct rest (i - length ns.infos)) [
    | none ↦ none
    | some (key, rest') ↦ some (key, ns ∷ rest')
  ]
]

-- `IsContextQuorum`: of each set but the last that is not excluded.
unfoldable pub set_quorum : CounterType → NodeSet → Bool
set_quorum ct ns =
    if ns.excluded_from_ics
    then true
    else not (
        ltb 0 ns.set_size_without_delta
        && ltb (get_resp_count ns ct) (ns.set_size_without_delta * 2 / 3 + 1))

unfoldable pub context_quorum : CounterType → List NodeSet → Bool
context_quorum ct [] = true
context_quorum ct (ns ∷ []) = true
context_quorum ct (ns ∷ next ∷ rest) = set_quorum ct ns && context_quorum ct (next ∷ rest)

unfoldable pub is_context_quorum : CounterType → Committee → Bool
is_context_quorum ct c = context_quorum ct c.sets
