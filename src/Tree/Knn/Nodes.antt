-- ===== src/Tree/Knn/Nodes.antt =====
-- goko/src/covertree/tree.rs: the search of one node's children, or of its
-- singletons, loses track of no point.
use mathlib.Core.Path.{subst}
use mathlib.Core.List.{Memᴰ}
use goko.Common.{
  All, ℕ, ◌≡◌, ◌∙◌, refl, sym, ap, Option, none, some, List, [], ◌∷◌, arith, inl, inr, map,
}
use goko.Common.Outcome.{ok}
use goko.Address.{NodeAddress, point_index}
use goko.Points.Float.{Float, Cloud, IsOrder}
use goko.Points.Distances.{distance, distances, distances_cons}
use goko.Cover.Node.{CoverNode}
use goko.Query.Heap.{
  KnnQueryHeap, push_node, push_node_list, push_nodes, max_dist, increase_estimated_distance,
}
use goko.Query.Bound.{push_node-Visit, max_dist-Bounds}
use goko.Tree.Reader.{CoverTree, get_node, children_of}
use goko.Tree.Levels.{Below, child, sum_of}
use goko.Tree.Knn.Visits.{push_node-Searching, push_node_list-Pushed, Pushed, Visit-load}
use goko.Tree.Knn.{child_knn}
use goko.Tree.Knn.Invariant.{
  centre, Held-up, Searchable, Status, known, out, under, beside, Searching, BelowAny,
}

module _ {fl : Float} (o : IsOrder fl) (cloud : Cloud fl) (t : CoverTree fl.F) where
  open fl use {F, lt, max_value}
  open cloud use {Point, dist}

  module _ (x : Point) (k : ℕ) where
    module _ (h : KnnQueryHeap fl) (est : List (NodeAddress × F)) where
      abbrev estimated : KnnQueryHeap fl
      estimated = record h { est_min_dist = est }

      Status-estimates : (p : ℕ) → Status o cloud t x k h p → Status o cloud t x k estimated p
      Status-estimates p (known e) = known e
      Status-estimates p (out e q f) = out e q f
      Status-estimates p (under a d i g) = under a d i g
      Status-estimates p (beside a d n i e j) = beside a d n i e j

      -- The estimates only order the heaps.
      pub Searching-estimates :
          (todo : ℕ → Type 0)
          → Searching o cloud t x k todo h
          → Searching o cloud t x k todo estimated
      Searching-estimates todo i = record {
        seen = i.seen;
        holds = record { size = i.holds.size; known = i.holds.known; nearest = i.holds.nearest };
        linked = i.linked;
        truths = i.truths;
        waiting = λ a d j.
            let y = i.waiting a d j in
            record { below = y.below; true_dist = y.true_dist; known = y.known };
        visited = i.visited;
        track = λ p g. elim (i.track p g) [ inl st ↦ inl (Status-estimates p st) | inr u ↦ inr u ];
      }

    push_nodes-Pushed :
        Searchable o cloud t x
        → (f : NodeAddress → ℕ) (nas : List NodeAddress) (ds : List F) (a : NodeAddress)
          (h : KnnQueryHeap fl)
        → All (Below t t.root_address) nas
        → distances cloud x (map point_index nas) ≡ some ds
        → Searching o cloud t x k (BelowAny o cloud t x k nas) h
        → Pushed o cloud t x k f nas h (push_nodes fl nas ds (some a) h)
    unfolding push_nodes increase_estimated_distance
    push_nodes-Pushed w f nas ds a h bs e i =
        let p =
          push_node_list-Pushed o cloud t x k w f nas ds (h, max_dist fl h) bs e i
            (max_dist-Bounds o k h i.seen i.holds) in
        record {
          searching =
              Searching-estimates (push_node_list fl nas ds (h, max_dist fl h)).0 _
                (BelowAny o cloud t x k []) p.searching;
          singles = p.singles;
          bounded = p.bounded;
        }

    readable_nodes :
        Searchable o cloud t x
        → (nas : List NodeAddress) → All (Below t t.root_address) nas
        → (ds : List F) × (distances cloud x (map point_index nas) ≡ some ds)
    unfolding distances
    readable_nodes w [] b = ([], refl)
    readable_nodes w (a ∷ nas) b =
        let (d, e) = w.readable (point_index a) (Held-up t (point_index a) b.0 (centre refl)) in
        let (ds, e') = readable_nodes w nas b.1 in (d ∷ ds, rw (e, e') refl)

    children_of-some :
        (n : CoverNode F) (cs : List NodeAddress) → n.children ≡ some cs → children_of n ≡ cs
    children_of-some n cs e =
        ap
          (λ (q : Option (List NodeAddress)). elim q as (λ _. List NodeAddress) [
            | none ↦ []
            | some l ↦ l
          ])
          e

    All-below :
        (cs : List NodeAddress)
        → ((c : NodeAddress) → Memᴰ c cs → Below t t.root_address c)
        → All (Below t t.root_address) cs
    All-below [] f = tt
    All-below (c ∷ cs) f = (f c (Memᴰ.head refl), All-below cs (λ y m. f y (Memᴰ.tail m)))

    child_run :
        (n : CoverNode F) (c : NodeAddress) (rest : List NodeAddress) (computed d : F)
        (more ds : List F) (h : KnnQueryHeap fl)
        → distances cloud x (point_index n.address ∷ []) ≡ some (computed ∷ more)
        → n.children ≡ some (c ∷ rest)
        → distances cloud x (map point_index rest) ≡ some ds
        → child_knn cloud (some d) x n h
          ≡ ok (push_nodes fl rest ds (some n.address) (push_node fl c d (h, max_dist fl h)).0)
    unfolding child_knn push_nodes push_node_list
    child_run n c rest computed d more ds h e1 kids e2 = rw (e1, kids, e2) refl

    -- `child_knn` on a node with children.
    pub child_knn-Pushed :
        Searchable o cloud t x
        → (f : NodeAddress → ℕ) (a : NodeAddress) (d : F) (n : CoverNode F) (cs : List NodeAddress)
          (h : KnnQueryHeap fl)
        → Below t t.root_address a
        → get_node t a ≡ ok (some n)
        → n.children ≡ some cs
        → distance cloud x (point_index a) ≡ some d
        → Searching o cloud t x k (BelowAny o cloud t x k (children_of n)) h
        → (h' : KnnQueryHeap fl) × (child_knn cloud (some d) x n h ≡ ok h')
          × Pushed o cloud t x k f (children_of n) h h'
    unfolding sum_of
    child_knn-Pushed w f a d n cs h b e kids td i =
        let (c, rest, q, nest) = w.nested a n cs b e kids in
        let kids' : n.children ≡ some (c ∷ rest) = kids ∙ ap some q in
        let same = children_of-some n (c ∷ rest) kids' in
        let bs : All (Below t t.root_address) (c ∷ rest) =
          subst (All (Below t t.root_address)) same
            (All-below (children_of n) (λ y m. child n b e m)) in
        let (own, e1) =
          readable_nodes w (n.address ∷ [])
            (subst (Below t t.root_address) (sym (w.own a n b e)) b, tt) in
        let (computed, more, u1, u2, u3) =
          distances_cons cloud x (point_index n.address) [] own e1 in
        let (ds, e2) = readable_nodes w rest bs.1 in
        let i' : Searching o cloud t x k (BelowAny o cloud t x k (c ∷ rest)) h =
          subst (λ l. Searching o cloud t x k (BelowAny o cloud t x k l) h) same i in
        let m = max_dist fl h in
        let h1 = (push_node fl c d (h, m)).0 in
        let tc : distance cloud x (point_index c) ≡ some d = ap (distance cloud x) nest ∙ td in
        let i1 =
          push_node-Searching o cloud t x k w c d m h bs.0 tc rest i'
            (max_dist-Bounds o k h i.seen i.holds) in
        let p = push_nodes-Pushed w f rest ds n.address h1 bs.1 e2 i1 in
        let v = push_node-Visit o k c d m h i.seen i.holds in
        (
          push_nodes fl rest ds (some n.address) h1,
          child_run n c rest computed d more ds h (rw u3 at e1) kids' e2,
          record {
            searching = p.searching;
            singles = p.singles ∙ v.singles;
            bounded =
                omega
                  (arith, p.bounded, Visit-load o cloud t x k f c d m h h1 v, ap (sum_of f) same);
          },
        )
