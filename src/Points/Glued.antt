-- ===== src/Points/Glued.antt =====
-- pointcloud/src/glued_data_cloud.rs: several point clouds as one, through a map of addresses.
use goko.Common.{
  All, ℕ, zero, suc, ◌+◌, ◌-◌, ◌≤◌, ◌<◌, ◌⊎◌, ◌≡◌, ◌∙◌, refl, ap, Bool, true, false, Option, none,
  some, List, [], ◌∷◌, length, get_elem?, ◌==◌, ltb, if◌then◌else◌, ◌&&◌, is_nil, ◌>>=◌, arith,
  ℕ_discrete, Bool-cases, inl, inr,
}
use goko.Common.Outcome.{Outcome, ok, err, panic}
use goko.Monomap.Table.{get, insert, get-insert}

-- A point cloud that is glued: its length, its own `is_empty`, and its points, where `none` is an
-- error.
pub record Source (P : Type 0) : Type 0 where
  pub size : ℕ
  pub is_empty : Bool
  pub point : ℕ → Option P

abbrev pub Addresses : Type 0
Addresses = List (ℕ × (ℕ × ℕ))

pub record HashGluedCloud (P : Type 0) : Type 0 where
  pub addresses : Addresses
  pub data_sources : List (Source P)

pub data PointCloudError : Type 0 where
  data_access_error : ℕ → PointCloudError

-- `for j in 0..source.len()`, from `j` on with `n` to go.
unfoldable pub fill_source : ℕ → ℕ → ℕ → ℕ → Addresses → Addresses
fill_source i j zero pi addresses = addresses
fill_source i j (suc n) pi addresses =
    fill_source i (suc j) n (suc pi) (insert ℕ_discrete pi (i, j) addresses)

unfoldable pub reindex_all :
    Addresses → List (ℕ × ℕ) → Addresses → Outcome PointCloudError Addresses
reindex_all addresses [] new_addresses = ok new_addresses
reindex_all addresses ((old_index, new_index) ∷ rest) new_addresses =
    elim (get ℕ_discrete old_index addresses) [
      | some addr ↦ reindex_all addresses rest (insert ℕ_discrete new_index addr new_addresses)
      | none ↦ err (data_access_error old_index)
    ]

module _ {P : Type 0} where
  -- `for (i, source) in data_sources.iter().enumerate()`
  unfoldable pub fill : ℕ → List (Source P) → ℕ → Addresses → Addresses
  fill i [] pi addresses = addresses
  fill i (s ∷ ss) pi addresses = fill (suc i) ss (pi + s.size) (fill_source i 0 s.size pi addresses)

  unfoldable pub new : List (Source P) → HashGluedCloud P
  new data_sources = record { addresses = fill 0 data_sources 0 []; data_sources = data_sources }

  unfoldable pub reindex :
      List (ℕ × ℕ) → HashGluedCloud P → Outcome PointCloudError (HashGluedCloud P)
  reindex new_indexes c =
      if length new_indexes == length c.addresses
      then elim (reindex_all c.addresses new_indexes []) [
        | ok new_addresses ↦ ok (record c { addresses = new_addresses })
        | err e ↦ err e
        | panic ↦ panic
      ]
      else panic

  unfoldable pub get_address : ℕ → HashGluedCloud P → Option (ℕ × ℕ)
  get_address pn c = get ℕ_discrete pn c.addresses

  -- `self.data_sources[i].point(j)`; `none` is an error, or the panic of a source out of range.
  unfoldable pub source_point : List (Source P) → ℕ × ℕ → Option P
  source_point sources (i, j) = do s ← get_elem? sources i; s.point j

  unfoldable pub glued_point : ℕ → HashGluedCloud P → Option P
  glued_point pi c = do a ← get_address pi c; source_point c.data_sources a

  unfoldable pub total_len : List (Source P) → ℕ
  total_len [] = 0
  total_len (s ∷ ss) = s.size + total_len ss

  unfoldable pub glued_len : HashGluedCloud P → ℕ
  glued_len c = total_len c.data_sources

  -- `all(|m| m.is_empty())`
  unfoldable pub all_empty : List (Source P) → Bool
  all_empty [] = true
  all_empty (s ∷ ss) = s.is_empty && all_empty ss

  unfoldable pub glued_is_empty : HashGluedCloud P → Bool
  glued_is_empty c = if is_nil c.data_sources then false else all_empty c.data_sources

  -- One source after the other.
  abbrev pub in_turn : List (Source P) → ℕ → Option P
  in_turn [] k = none
  in_turn (s ∷ ss) k = if ltb k s.size then s.point k else in_turn ss (k - s.size)

  -- The address of the `k`-th point, with the sources numbered from `i`.
  abbrev pub locate : ℕ → List (Source P) → ℕ → Option (ℕ × ℕ)
  locate i [] k = none
  locate i (s ∷ ss) k = if ltb k s.size then some (i, k) else locate (suc i) ss (k - s.size)

-- The points of one source get the next indexes, and nothing else changes.
fill_source_lem :
    (i j n pi k : ℕ) (addresses : Addresses)
    → get ℕ_discrete k (fill_source i j n pi addresses) ≡ (
        if ltb k pi
        then get ℕ_discrete k addresses
        else if ltb k (pi + n)
        then some (i, j + (k - pi))
        else get ℕ_discrete k addresses)
unfolding fill_source
fill_source_lem i j zero pi k addresses = ground arith
fill_source_lem i j (suc n) pi k addresses = ground (
  arith,
  fill_source_lem i (suc j) n (suc pi) k (insert ℕ_discrete pi (i, j) addresses),
  get-insert ℕ_discrete pi k (i, j) addresses,
)

module _ {P : Type 0} where
  fill_lem :
      (i : ℕ) (ss : List (Source P)) (pi k : ℕ) (addresses : Addresses)
      → ((q : ℕ) → pi ≤ q → get ℕ_discrete q addresses ≡ none)
      → get ℕ_discrete k (fill i ss pi addresses)
        ≡ (if ltb k pi then get ℕ_discrete k addresses else locate i ss (k - pi))
  unfolding fill
  fill_lem i [] pi k addresses h = elim (Bool-cases (ltb k pi)) [
    | inl below ↦ rw below
    | inr above ↦ rw above (h k (ground arith))
  ]
  fill_lem i (s ∷ ss) pi k addresses h =
      let filled = fill_source i 0 s.size pi addresses in
      let rest : (q : ℕ) → pi + s.size ≤ q → get ℕ_discrete q filled ≡ none =
        λ q b. fill_source_lem i 0 s.size pi q addresses ∙ ground (arith, h q (omega arith)) in
      let index : k - (pi + s.size) ≡ k - pi - s.size = omega arith in
      ground (
        arith,
        fill_lem (suc i) ss (pi + s.size) k filled rest,
        fill_source_lem i 0 s.size pi k addresses,
        index,
      )

  locate_lem :
      (full : List (Source P)) (i : ℕ) (ss : List (Source P)) (k : ℕ)
      → ((j : ℕ) → get_elem? full (i + j) ≡ get_elem? ss j)
      → (do a ← locate i ss k; source_point full a) ≡ in_turn ss k
  unfolding source_point
  locate_lem full i [] k h = refl
  locate_lem full i (s ∷ ss) k h =
      let here : get_elem? full i ≡ some s = ap (get_elem? full) (omega arith) ∙ h 0 in
      let next : (j : ℕ) → get_elem? full (suc i + j) ≡ get_elem? ss j =
        λ j. ap (get_elem? full) (omega arith) ∙ h (suc j) in
      elim (Bool-cases (ltb k s.size)) [
        | inl inside ↦ rw (inside, here)
        | inr outside ↦ rw outside (locate_lem full (suc i) ss (k - s.size) next)
      ]

  -- The glued cloud has the points of its sources one after the other: the first of the second
  -- source follows the last of the first, and there is no point past the last source.
  pub glued_point-in_turn :
      (sources : List (Source P)) (pi : ℕ) → glued_point pi (new sources) ≡ in_turn sources pi
  unfolding glued_point get_address new get
  glued_point-in_turn sources pi =
      let below : ltb pi 0 ≡ false = ground arith in
      let zeroth : pi - 0 ≡ pi = omega arith in
      let start : (if ltb pi 0 then get ℕ_discrete pi [] else locate 0 sources (pi - 0))
          ≡ locate 0 sources pi =
        rw (below, zeroth) in
      let found : get ℕ_discrete pi (fill 0 sources 0 []) ≡ locate 0 sources pi =
        fill_lem 0 sources 0 pi [] (λ q b. refl) ∙ start in
      rw found (locate_lem sources 0 sources pi (λ j. ap (get_elem? sources) (omega arith)))

-- An address of one of the sources, or none past the last.
abbrev Addressed : {P : Type 0} → List (Source P) → ℕ → ℕ → Option (ℕ × ℕ) → Type 0
Addressed {P} sources size k r =
    (size ≤ k) × (r ≡ none)
    ⊎ (k < size)
      × (a : ℕ × ℕ) × (r ≡ some a)
      × (s : Source P) × (get_elem? sources a.0 ≡ some s)
      × (a.1 < s.size)

module _ {P : Type 0} where
  locate-Addressed :
      (full : List (Source P)) (i : ℕ) (ss : List (Source P)) (k : ℕ)
      → ((j : ℕ) → get_elem? full (i + j) ≡ get_elem? ss j)
      → Addressed full (total_len ss) k (locate i ss k)
  unfolding total_len
  locate-Addressed full i [] k h = inl (omega arith, refl)
  locate-Addressed full i (s ∷ ss) k h =
      let here : get_elem? full i ≡ some s = ap (get_elem? full) (omega arith) ∙ h 0 in
      let next : (j : ℕ) → get_elem? full (suc i + j) ≡ get_elem? ss j =
        λ j. ap (get_elem? full) (omega arith) ∙ h (suc j) in
      elim (Bool-cases (ltb k s.size)) [
        | inl inside ↦
            inr (ground (arith, inside), (i, k), rw inside refl, s, here, ground (arith, inside))
        | inr outside ↦ elim (locate-Addressed full (suc i) ss (k - s.size) next) [
          | inl (past, e) ↦ inl (ground (arith, outside, past), rw outside e)
          | inr (within, a, e, t, at, low) ↦
              inr (ground (arith, outside, within), a, rw outside e, t, at, low)
        ]
      ]

  -- The indexes that have an address in a new glued cloud are those below its length, which is the
  -- sum of the lengths of the sources, and the address is one of a point within a source.
  pub get_address-glued_len :
      (sources : List (Source P)) (pi : ℕ)
      → (glued_len (new sources) ≤ pi) × (get_address pi (new sources) ≡ none)
        ⊎ (pi < glued_len (new sources))
          × (a : ℕ × ℕ) × (get_address pi (new sources) ≡ some a)
          × (s : Source P) × (get_elem? sources a.0 ≡ some s)
          × (a.1 < s.size)
  unfolding get_address new glued_len get
  get_address-glued_len sources pi =
      let below : ltb pi 0 ≡ false = ground arith in
      let zeroth : pi - 0 ≡ pi = omega arith in
      let start : (if ltb pi 0 then get ℕ_discrete pi [] else locate 0 sources (pi - 0))
          ≡ locate 0 sources pi =
        rw (below, zeroth) in
      let found : get ℕ_discrete pi (fill 0 sources 0 []) ≡ locate 0 sources pi =
        fill_lem 0 sources 0 pi [] (λ q b. refl) ∙ start in
      rw found (locate-Addressed sources 0 sources pi (λ j. ap (get_elem? sources) (omega arith)))

-- The old index that a list of pairs gives to a new one: its last pair counts.
abbrev pub renamed : ℕ → List (ℕ × ℕ) → Option ℕ
renamed k [] = none
renamed k ((old, new_index) ∷ l) = elim (renamed k l) [
  | some o ↦ some o
  | none ↦ if new_index == k then some old else none
]

reindex_all_lem :
    (addresses : Addresses) (l : List (ℕ × ℕ)) (acc : Addresses)
    → All (λ (p : ℕ × ℕ). (a : ℕ × ℕ) × (get ℕ_discrete p.0 addresses ≡ some a)) l
    → (q : Addresses) × (reindex_all addresses l acc ≡ ok q)
      × ((k : ℕ)
          → get ℕ_discrete k q ≡ elim (renamed k l) [
            | some o ↦ get ℕ_discrete o addresses
            | none ↦ get ℕ_discrete k acc
          ])
unfolding reindex_all
reindex_all_lem addresses [] acc a = (acc, refl, λ k. refl)
reindex_all_lem addresses ((old, new_index) ∷ l) acc ((addr, e), a) =
    let (q, run, all) = reindex_all_lem addresses l (insert ℕ_discrete new_index addr acc) a in
    (
      q,
      rw (reindex_all, e) run,
      λ k. all k ∙ ground (arith, get-insert ℕ_discrete new_index k addr acc, e),
    )

module _ {P : Type 0} where
  -- A list of as many pairs as there are points, whose old indexes all exist, reindexes the cloud:
  -- a new index then has the point of the old index in its last pair, and others have none.
  pub reindex-renamed :
      (l : List (ℕ × ℕ)) (c : HashGluedCloud P)
      → length l ≡ length c.addresses
      → All (λ (p : ℕ × ℕ). (a : ℕ × ℕ) × (get_address p.0 c ≡ some a)) l
      → (d : HashGluedCloud P) × (reindex l c ≡ ok d)
        × ((k : ℕ) → glued_point k d ≡ (do o ← renamed k l; glued_point o c))
  unfolding reindex get_address glued_point get
  reindex-renamed l c e a =
      let (q, run, all) = reindex_all_lem c.addresses l [] a in
      let same : (length l == length c.addresses) ≡ true = ground arith in
      (record c { addresses = q }, rw (same, run), λ k. ground (arith, all k))
