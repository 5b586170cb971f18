-- ===== src/Query/Heap.antt =====
-- knn_query_heap.rs and query_items.rs. A `BinaryHeap` is a list with its greatest element first;
-- the order of equal elements, which the heap leaves open, is that of insertion.
use goko.Common.{
  ℕ, ◌+◌, Bool, false, Option, none, some, List, [], ◌∷◌, length, is_nil, ◌==◌, ltb, leb,
  if◌then◌else◌, ◌&&◌, ◌||◌, not,
}
use goko.Common.Int.{ltb_ℤ}
use goko.Address.{NodeAddress, point_index, scale_index}
use goko.Points.Float.{Float}

abbrev pub contains : ℕ → List ℕ → Bool
contains i [] = false
contains i (j ∷ js) = (i == j) || contains i js

module _ (fl : Float) where
  open fl use {F, lt, zero_value, max_value, sub, powi}

  pub record QueryAddress : Type 0 where
    pub min_dist : F
    pub dist_to_center : F
    pub address : NodeAddress

  pub record QuerySingleton : Type 0 where
    pub dist : F
    pub index : ℕ

  -- `cmp` is `Greater`: the heap is a min-heap on the least distance, the scale, and the distance.
  unfoldable pub comes_first : QueryAddress → QueryAddress → Bool
  comes_first a b =
      lt a.min_dist b.min_dist
      || (not (lt b.min_dist a.min_dist)
          && (ltb_ℤ (scale_index a.address) (scale_index b.address)
              || (not (ltb_ℤ (scale_index b.address) (scale_index a.address))
                  && lt a.dist_to_center b.dist_to_center)))

  unfoldable pub push_address : QueryAddress → List QueryAddress → List QueryAddress
  push_address a [] = a ∷ []
  push_address a (b ∷ l) =
      let rest = push_address a l in if comes_first a b then a ∷ b ∷ l else b ∷ rest

  -- A max-heap on the distance.
  unfoldable pub push_singleton : QuerySingleton → List QuerySingleton → List QuerySingleton
  push_singleton x [] = x ∷ []
  push_singleton x (y ∷ l) =
      let rest = push_singleton x l in if lt y.dist x.dist then x ∷ y ∷ l else y ∷ rest

  pub record KnnQueryHeap : Type 0 where
    pub child_heap : List QueryAddress
    pub singleton_heap : List QueryAddress
    pub known_indexes : List ℕ
    pub est_min_dist : List (NodeAddress × F)
    pub dist_heap : List QuerySingleton
    pub k : ℕ

  unfoldable pub new : ℕ → KnnQueryHeap
  new k = record {
    child_heap = [];
    singleton_heap = [];
    known_indexes = [];
    est_min_dist = [];
    dist_heap = [];
    k = k;
  }

  unfoldable pub len : KnnQueryHeap → ℕ
  len h = length h.dist_heap

  unfoldable pub is_empty : KnnQueryHeap → Bool
  is_empty h = is_nil h.dist_heap

  unfoldable pub node_len : KnnQueryHeap → ℕ
  node_len h = length h.child_heap + length h.singleton_heap

  unfoldable pub max_dist : KnnQueryHeap → F
  unfolding len
  max_dist h =
      if ltb (len h) h.k then max_value else elim h.dist_heap [ [] ↦ max_value | x ∷ l ↦ x.dist ]

  -- `a.max(b)` of floats.
  abbrev pub larger : F → F → F
  larger a b = if lt a b then b else a

  -- `while self.dist_heap.len() > self.k { self.dist_heap.pop(); }`
  unfoldable pub trim : ℕ → List QuerySingleton → List QuerySingleton
  trim k [] = []
  trim k (x ∷ l) = let rest = trim k l in if ltb k (length (x ∷ l)) then rest else x ∷ l

  -- The push of a point that is not known yet, after the look at the heap's greatest distance.
  unfoldable pub push_dist : ℕ → QuerySingleton → List QuerySingleton → List QuerySingleton
  push_dist k x [] = x ∷ []
  push_dist k x (my_dist ∷ l) =
      if not (lt my_dist.dist x.dist && leb k (length (my_dist ∷ l)))
      then push_singleton x (my_dist ∷ l)
      else my_dist ∷ l

  -- One turn of the loop of `push_outliers`.
  unfoldable pub push_outlier : ℕ → F → KnnQueryHeap → KnnQueryHeap
  push_outlier i d h = if contains i h.known_indexes then h else record h {
    known_indexes = i ∷ h.known_indexes;
    dist_heap = trim h.k (push_dist h.k (record { dist = d; index = i }) h.dist_heap);
  }

  unfoldable pub push_outliers : List ℕ → List F → KnnQueryHeap → KnnQueryHeap
  push_outliers (i ∷ is) (d ∷ ds) h = push_outliers is ds (push_outlier i d h)
  push_outliers _ _ h = h

  -- `est_min_dist.entry(address).or_insert(0.0)`, raised to the new estimate.
  unfoldable pub increase : NodeAddress → F → List (NodeAddress × F) → List (NodeAddress × F)
  increase a e [] = (a, larger zero_value e) ∷ []
  increase a e ((b, d) ∷ l) =
      let rest = increase a e l in if a.na == b.na then (b, larger d e) ∷ l else (b, d) ∷ rest

  unfoldable pub increase_estimated_distance : NodeAddress → F → KnnQueryHeap → KnnQueryHeap
  increase_estimated_distance a e h = record h { est_min_dist = increase a e h.est_min_dist }

  -- One turn of the loop of `push_nodes`: `max_dist` is the local variable, which is set again only
  -- where the heap is trimmed.
  unfoldable pub push_node : NodeAddress → F → KnnQueryHeap × F → KnnQueryHeap × F
  push_node na d (h, max_now) =
      let pi = point_index na in
      let emd = larger (sub d (powi (scale_index na))) zero_value in
      let item : QueryAddress = record { min_dist = emd; dist_to_center = d; address = na } in
      let h1 : KnnQueryHeap =
        if lt emd max_now then record h { child_heap = push_address item h.child_heap } else h in
      let h2 : KnnQueryHeap = if contains pi h1.known_indexes then h1 else record h1 {
        known_indexes = pi ∷ h1.known_indexes;
        dist_heap = push_dist h1.k (record { dist = d; index = pi }) h1.dist_heap;
      } in
      let h3 : KnnQueryHeap = record h2 { dist_heap = trim h2.k h2.dist_heap } in
      (h3, if ltb h2.k (length h2.dist_heap) then max_dist h3 else max_now)

  unfoldable pub push_node_list : List NodeAddress → List F → KnnQueryHeap × F → KnnQueryHeap × F
  push_node_list (na ∷ nas) (d ∷ ds) h = push_node_list nas ds (push_node na d h)
  push_node_list _ _ h = h

  -- The largest of the estimates, `parent_est_dist_update`.
  unfoldable pub parent_update : List NodeAddress → List F → F → F
  parent_update (na ∷ nas) (d ∷ ds) e =
      parent_update nas ds (larger (larger (sub d (powi (scale_index na))) zero_value) e)
  parent_update _ _ e = e

  unfoldable pub push_nodes :
      List NodeAddress → List F → Option NodeAddress → KnnQueryHeap → KnnQueryHeap
  push_nodes indexes dists parent h =
      let pushed = (push_node_list indexes dists (h, max_dist h)).0 in
      elim parent [
        | none ↦ pushed
        | some a ↦ increase_estimated_distance a (parent_update indexes dists zero_value) pushed
      ]

  -- `while let Some(el) = self.dist_heap.pop()`, then reversed.
  unfoldable pub unpack_onto : List QuerySingleton → List (ℕ × F) → List (ℕ × F)
  unpack_onto [] result = result
  unpack_onto (el ∷ l) result = unpack_onto l ((el.index, el.dist) ∷ result)

  unfoldable pub unpack : KnnQueryHeap → List (ℕ × F)
  unpack h = unpack_onto h.dist_heap []
