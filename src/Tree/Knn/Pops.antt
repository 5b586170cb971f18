-- ===== src/Tree/Knn/Pops.antt =====
-- goko/src/covertree/tree.rs: the pops of the search lose track of no
-- point: what a popped node holds is about to be pushed.
use mathlib.Core.Path.{subst}
use mathlib.Core.List.{Memᴰ, Permᴰ}
use mathlib.Core.List.Memᴰ
use mathlib.Core.List.Permᴰ
use goko.Common.{ℕ, ◌≡◌, ◌∙◌, ◌⊎◌, refl, sym, ap, true, Option, some, List, ◌∷◌, inl, inr}
use goko.Common.Outcome.{Outcome, ok}
use goko.Address.{NodeAddress, point_index}
use goko.Points.Float.{Float, Cloud, IsOrder}
use goko.Cover.Node.{GokoError, CoverNode}
use goko.Query.Heap.{KnnQueryHeap, QueryAddress, contains, push_address}
use goko.Query.Pops.{keys, key, keys-push}
use goko.Tree.Knn.Singles.{OneOf}
use goko.Tree.Reader.{CoverTree, get_node, children_of}
use goko.Tree.Levels.{Below}
use goko.Tree.Knn.Invariant.{
  Permᴰ-Memᴰ, Held, centre, single, lower, Status, known, out, under, beside, Waiting, Searching,
  BelowAny,
}

-- No point is left to push.
abbrev pub Nothing : ℕ → Type 0
Nothing p = ⊥

module _ {fl : Float} (o : IsOrder fl) (cloud : Cloud fl) (t : CoverTree fl.F) where
  open fl use {F, lt, max_value}
  open cloud use {Point, dist}

  module _ (x : Point) (k : ℕ) where
    same_node :
        (n n' : CoverNode F)
        → ◌≡◌ {A = Outcome GokoError (Option (CoverNode F))} (ok (some n)) (ok (some n'))
        → n ≡ n'
    same_node n n' e = cc

    module _ (q : QueryAddress fl) (rest : List (QueryAddress fl)) (est : List (NodeAddress × F))
        (h : KnnQueryHeap fl) (n : CoverNode F) (e : get_node t q.address ≡ ok (some n)) where
      abbrev after_child : KnnQueryHeap fl
      after_child = record h {
        child_heap = rest;
        est_min_dist = est;
        singleton_heap = push_address fl q h.singleton_heap;
      }

      -- The popped node on the singleton heap.
      on_singles :
          (a : NodeAddress) (d : F)
          → ◌≡◌ {A = NodeAddress × F} (a, d) (key fl q)
          → Memᴰ (a, d) (keys fl after_child.singleton_heap)
      on_singles a d r = Permᴰ-Memᴰ (Permᴰ.symm (keys-push fl q h.singleton_heap)) (Memᴰ.head r)

      held_Status :
          contains (point_index q.address) h.known_indexes ≡ true
          → (p : ℕ) → Held t p q.address
          → Status o cloud t x k after_child p ⊎ BelowAny o cloud t x k (children_of n) p
      held_Status y p g = go q.address refl g
        where
          go :
              (a : NodeAddress)
              → a ≡ q.address
              → Held t p a
              → Status o cloud t x k after_child p ⊎ BelowAny o cloud t x k (children_of n) p
          go a r (centre u) =
              inl (known (ap (λ z. contains z h.known_indexes) (u ∙ ap point_index r) ∙ y))
          go a r (single n' e' m) = inl (
              beside q.address q.dist_to_center n' (on_singles q.address q.dist_to_center refl)
                (ap (get_node t) (sym r) ∙ e') m)
          go a r (lower n' c e' m g) = inr (
            c,
            subst (λ l. Memᴰ c (children_of l)) (same_node n' n (sym e' ∙ ap (get_node t) r ∙ e)) m,
            g,
          )

      module _ (d : Permᴰ (keys fl h.child_heap) (key fl q ∷ keys fl rest))
          (i : Searching o cloud t x k Nothing h) where
        top : Waiting o cloud t x k h q.address q.dist_to_center
        top = i.waiting q.address q.dist_to_center (Permᴰ-Memᴰ (Permᴰ.symm d) (Memᴰ.head refl))

        moved_Status :
            (p : ℕ)
            → Status o cloud t x k h p
            → Status o cloud t x k after_child p ⊎ BelowAny o cloud t x k (children_of n) p
        moved_Status p (known u) = inl (known u)
        moved_Status p (out u v f) = inl (out u v f)
        moved_Status p (beside a d' n' j u m) = inl (
            beside a d' n' (Permᴰ-Memᴰ (Permᴰ.symm (keys-push fl q h.singleton_heap)) (Memᴰ.tail j))
              u m)
        moved_Status p (under a d' j g) = elim (Memᴰ.cases_cons (Permᴰ-Memᴰ d j)) [
          | inl r ↦
              held_Status top.known p (subst (Held t p) (ap (λ (z : NodeAddress × F). z.0) r) g)
          | inr j' ↦ inl (under a d' j' g)
        ]

        pub pop_child-Searching :
            Searching o cloud t x k (BelowAny o cloud t x k (children_of n)) after_child
        pop_child-Searching = record {
          seen = i.seen;
          holds = record { size = i.holds.size; known = i.holds.known; nearest = i.holds.nearest };
          linked = i.linked;
          truths = i.truths;
          waiting = λ a d' j.
              let y = i.waiting a d' (Permᴰ-Memᴰ (Permᴰ.symm d) (Memᴰ.tail j)) in
              record { below = y.below; true_dist = y.true_dist; known = y.known };
          visited = λ a d' j.
              elim (Memᴰ.cases_cons (Permᴰ-Memᴰ (keys-push fl q h.singleton_heap) j)) [
                | inl r ↦
                    subst (Below t t.root_address) (ap (λ (z : NodeAddress × F). z.0) (sym r))
                      top.below
                | inr j' ↦ i.visited a d' j'
              ];
          track = λ p g. elim (i.track p g) [
            | inl st ↦ moved_Status p st
            | inr no_point ↦ absurd no_point
          ];
        }

      abbrev after_singleton : KnnQueryHeap fl
      after_singleton = record h { singleton_heap = rest; est_min_dist = est }

      module _ (d : Permᴰ (keys fl h.singleton_heap) (key fl q ∷ keys fl rest))
          (i : Searching o cloud t x k Nothing h) where
        given_Status :
            (p : ℕ)
            → Status o cloud t x k h p
            → Status o cloud t x k after_singleton p ⊎ OneOf o cloud t x k n.singles_indexes p
        given_Status p (known u) = inl (known u)
        given_Status p (out u v f) = inl (out u v f)
        given_Status p (under a d' j g) = inl (under a d' j g)
        given_Status p (beside a d' n' j u m) = elim (Memᴰ.cases_cons (Permᴰ-Memᴰ d j)) [
          | inl r ↦ inr (
              subst (λ (l : CoverNode F). Memᴰ p l.singles_indexes)
                (same_node n' n (sym u ∙ ap (λ (z : NodeAddress × F). get_node t z.0) r ∙ e)) m)
          | inr j' ↦ inl (beside a d' n' j' u m)
        ]

        pub pop_singleton-Searching :
            Searching o cloud t x k (OneOf o cloud t x k n.singles_indexes) after_singleton
        pop_singleton-Searching = record {
          seen = i.seen;
          holds = record { size = i.holds.size; known = i.holds.known; nearest = i.holds.nearest };
          linked = i.linked;
          truths = i.truths;
          waiting = λ a d' j.
              let y = i.waiting a d' j in
              record { below = y.below; true_dist = y.true_dist; known = y.known };
          visited = λ a d' j. i.visited a d' (Permᴰ-Memᴰ (Permᴰ.symm d) (Memᴰ.tail j));
          track = λ p g. elim (i.track p g) [
            | inl st ↦ given_Status p st
            | inr no_point ↦ absurd no_point
          ];
        }

    pub Searching-weaken :
        (todo todo' : ℕ → Type 0) (h : KnnQueryHeap fl)
        → ((p : ℕ) → todo p → todo' p)
        → Searching o cloud t x k todo h
        → Searching o cloud t x k todo' h
    Searching-weaken todo todo' h f i = record {
      seen = i.seen;
      holds = i.holds;
      linked = i.linked;
      truths = i.truths;
      waiting = i.waiting;
      visited = i.visited;
      track = λ p g. elim (i.track p g) [ inl st ↦ inl st | inr u ↦ inr (f p u) ];
    }
