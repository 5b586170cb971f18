-- ===== src/Query/Nearest.antt =====
-- knn_query_heap.rs: the distance heap holds the k nearest of the points that were pushed.
use mathlib.Core.List.{Permᴰ}
use mathlib.Core.List.Permᴰ
use mathlib.Core.Path.{subst}
use goko.Common.{
  leb→le, All, ℕ, suc, ◌<◌, ◌≤◌, ◌≡◌, ◌∙◌, ◌⊎◌, refl, sym, ap, Bool, true, false, List, [], ◌∷◌,
  ◌++◌, length, ltb, leb, ◌&&◌, arith, Bool-cases, inl, inr,
}
use goko.Points.Float.{Float, IsOrder}
use goko.Query.Heap.{QuerySingleton, push_singleton, trim, push_dist}

and_left : (a b : Bool) → (a && b) ≡ true → a ≡ true
and_left true b e = refl
and_left false b e = cc

and_right : (a b : Bool) → (a && b) ≡ true → b ≡ true
and_right true b e = e
and_right false b e = cc

module _ {fl : Float} (o : IsOrder fl) where
  open fl use {F, lt}

  -- `y` is nearer to the query than none of the list.
  abbrev pub NotNearer : QuerySingleton fl → List (QuerySingleton fl) → Type 0
  NotNearer y l = All (λ (z : QuerySingleton fl). lt y.dist z.dist ≡ false) l

  abbrev pub Falling : List (QuerySingleton fl) → Type 0
  Falling [] = Unit
  Falling (x ∷ l) = NotNearer x l × Falling l

  -- The heap holds the `k` nearest of the points seen: it falls, what is not in it is nearer than
  -- none of it, and something is left out only when it is full.
  pub record IsNearest (k : ℕ) (heap seen : List (QuerySingleton fl)) : Type 0 where
    pub dropped : List (QuerySingleton fl)
    pub perm : Permᴰ (heap ++ dropped) seen
    pub falling : Falling heap
    pub farther : All (λ y. NotNearer y heap) dropped
    pub bound : length heap ≤ k
    pub full : (dropped ≡ []) ⊎ (length heap ≡ k)

  not_lt_trans : (a b c : F) → lt a b ≡ false → lt b c ≡ false → lt a c ≡ false
  not_lt_trans a b c e f = elim (Bool-cases (lt a c)) [
    | inr n ↦ n
    | inl y ↦ elim (o.split a b c y) [ inl g ↦ cc | inr g ↦ cc ]
  ]

  lt_asym : (a b : F) → lt a b ≡ true → lt b a ≡ false
  lt_asym a b e = elim (Bool-cases (lt b a)) [
    | inr n ↦ n
    | inl y ↦ let loop = o.trans a b a e y in let never = o.irrefl a in cc
  ]

  NotNearer-trans :
      (x y : QuerySingleton fl) (l : List (QuerySingleton fl))
      → lt x.dist y.dist ≡ false
      → NotNearer y l
      → NotNearer x l
  NotNearer-trans x y [] e n = tt
  NotNearer-trans x y (z ∷ l) e n =
      (not_lt_trans x.dist y.dist z.dist e n.0, NotNearer-trans x y l e n.1)

  NotNearer-push :
      (y x : QuerySingleton fl) (l : List (QuerySingleton fl))
      → lt y.dist x.dist ≡ false
      → NotNearer y l
      → NotNearer y (push_singleton fl x l)
  unfolding push_singleton
  NotNearer-push y x [] e n = (e, tt)
  NotNearer-push y x (z ∷ l) e n = elim (Bool-cases (lt z.dist x.dist)) [
    | inl near ↦ rw near (e, n)
    | inr far ↦ rw far (n.0, NotNearer-push y x l e n.1)
  ]

  push-Falling :
      (x : QuerySingleton fl) (l : List (QuerySingleton fl))
      → Falling l
      → Falling (push_singleton fl x l)
  unfolding push_singleton
  push-Falling x [] f = (tt, tt)
  push-Falling x (y ∷ l) f = elim (Bool-cases (lt y.dist x.dist)) [
    | inl near ↦
        rw near
          ((lt_asym y.dist x.dist near, NotNearer-trans x y l (lt_asym y.dist x.dist near) f.0), f)
    | inr far ↦ rw far (NotNearer-push y x l far f.0, push-Falling x l f.1)
  ]

  push-perm :
      (x : QuerySingleton fl) (l : List (QuerySingleton fl)) → Permᴰ (push_singleton fl x l) (x ∷ l)
  unfolding push_singleton
  push-perm x [] = Permᴰ.refl (x ∷ [])
  push-perm x (y ∷ l) = elim (Bool-cases (lt y.dist x.dist)) [
    | inl near ↦ rw near (Permᴰ.refl (x ∷ y ∷ l))
    | inr far ↦ rw far (Permᴰ.trans (Permᴰ.cons refl (push-perm x l)) (Permᴰ.swap refl refl))
  ]

  pub length-push :
      (x : QuerySingleton fl) (l : List (QuerySingleton fl))
      → length (push_singleton fl x l) ≡ suc (length l)
  unfolding push_singleton
  length-push x [] = refl
  length-push x (y ∷ l) = elim (Bool-cases (lt y.dist x.dist)) [
    | inl near ↦ rw near
    | inr far ↦ rw far (ap suc (length-push x l))
  ]

  abbrev pub tail : List (QuerySingleton fl) → List (QuerySingleton fl)
  tail [] = []
  tail (x ∷ l) = l

  -- What is left of a push without its head is not farther than what was left out before.
  pub NotNearer-tail :
      (x : QuerySingleton fl) (l : List (QuerySingleton fl)) (y : QuerySingleton fl)
      → NotNearer y l
      → NotNearer y (tail (push_singleton fl x l))
  unfolding push_singleton
  NotNearer-tail x [] y n = tt
  NotNearer-tail x (z ∷ l) y n = elim (Bool-cases (lt z.dist x.dist)) [
    | inl near ↦ rw near n
    | inr far ↦ rw far (NotNearer-push y x l (not_lt_trans y.dist z.dist x.dist n.0 far) n.1)
  ]

  farther-tail :
      (x : QuerySingleton fl) (l ys : List (QuerySingleton fl))
      → All (λ y. NotNearer y l) ys
      → All (λ y. NotNearer y (tail (push_singleton fl x l))) ys
  farther-tail x l [] a = tt
  farther-tail x l (y ∷ ys) a = (NotNearer-tail x l y a.0, farther-tail x l ys a.1)

  pub trim_fits : (k : ℕ) (l : List (QuerySingleton fl)) → length l ≤ k → trim fl k l ≡ l
  unfolding trim
  trim_fits k [] h = refl
  trim_fits k (x ∷ l) h = ground arith

  -- One element too many.
  pub trim_one : (k : ℕ) (l : List (QuerySingleton fl)) → length l ≡ suc k → trim fl k l ≡ tail l
  unfolding trim
  trim_one k [] h = absurd (omega arith)
  trim_one k (x ∷ l) h = ground (arith, trim_fits k l (omega arith))

  head_tail :
      (k : ℕ) (l : List (QuerySingleton fl))
      → length l ≡ suc k
      → (m : QuerySingleton fl) × (l ≡ m ∷ tail l)
  head_tail k [] h = absurd (omega arith)
  head_tail k (x ∷ l) h = (x, refl)

  pushed_within :
      (k : ℕ) (x : QuerySingleton fl) (heap seen : List (QuerySingleton fl))
      → length heap < k
      → IsNearest k heap seen
      → IsNearest k (trim fl k (push_singleton fl x heap)) (x ∷ seen)
  pushed_within k x heap seen h n =
      let none_out : n.dropped ≡ [] = elim n.full [ inl e ↦ e | inr e ↦ absurd (omega arith) ] in
      let all : Permᴰ (heap ++ []) seen = rw none_out at n.perm in
      let fits = trim_fits k (push_singleton fl x heap) (omega (arith, length-push x heap)) in
      rw fits (record {
        dropped = [];
        perm = Permᴰ.trans (Permᴰ.append_right [] (push-perm x heap)) (Permᴰ.cons refl all);
        falling = push-Falling x heap n.falling;
        farther = tt;
        bound = omega (arith, length-push x heap);
        full = inl refl;
      })

  pushed_over :
      (k : ℕ) (x : QuerySingleton fl) (heap seen : List (QuerySingleton fl))
      → length heap ≡ k
      → IsNearest k heap seen
      → IsNearest k (trim fl k (push_singleton fl x heap)) (x ∷ seen)
  pushed_over k x heap seen h n =
      let p = push_singleton fl x heap in
      let count : length p ≡ suc k = length-push x heap ∙ ap suc h in
      let (m, e) = head_tail k p count in
      let falls : Falling (m ∷ tail p) = subst Falling e (push-Falling x heap n.falling) in
      let order : Permᴰ (m ∷ tail p) (x ∷ heap) =
        subst (λ l. Permᴰ l (x ∷ heap)) e (push-perm x heap) in
      let left : suc (length (tail p)) ≡ suc k = ap length (sym e) ∙ count in
      rw (trim_one k p count) (record {
        dropped = m ∷ n.dropped;
        perm =
            Permᴰ.trans (Permᴰ.middle m (tail p) n.dropped)
              (Permᴰ.trans (Permᴰ.append_right n.dropped order) (Permᴰ.cons refl n.perm));
        falling = falls.1;
        farther = (falls.0, farther-tail x heap n.dropped n.farther);
        bound = omega (arith, left);
        full = inr (omega (arith, left));
      })

  rejected :
      (k : ℕ) (x my_dist : QuerySingleton fl) (l seen : List (QuerySingleton fl))
      → lt my_dist.dist x.dist ≡ true
      → k ≤ length (my_dist ∷ l)
      → IsNearest k (my_dist ∷ l) seen
      → IsNearest k (trim fl k (my_dist ∷ l)) (x ∷ seen)
  rejected k x my_dist l seen far h n =
      let out = lt_asym my_dist.dist x.dist far in
      rw (trim_fits k (my_dist ∷ l) n.bound) (record {
        dropped = x ∷ n.dropped;
        perm = Permᴰ.trans (Permᴰ.middle x (my_dist ∷ l) n.dropped) (Permᴰ.cons refl n.perm);
        falling = n.falling;
        farther = ((out, NotNearer-trans x my_dist l out n.falling.0), n.farther);
        bound = n.bound;
        full = inr (omega (arith, n.bound));
      })

  pushed :
      (k : ℕ) (x : QuerySingleton fl) (heap seen : List (QuerySingleton fl))
      → IsNearest k heap seen
      → IsNearest k (trim fl k (push_singleton fl x heap)) (x ∷ seen)
  pushed k x heap seen n = elim (Bool-cases (ltb (length heap) k)) [
    | inl less ↦ pushed_within k x heap seen (ground arith) n
    | inr full ↦ pushed_over k x heap seen (ground (arith, n.bound)) n
  ]

  pub push_dist-IsNearest :
      (k : ℕ) (x : QuerySingleton fl) (heap seen : List (QuerySingleton fl))
      → IsNearest k heap seen
      → IsNearest k (trim fl k (push_dist fl k x heap)) (x ∷ seen)
  unfolding push_dist push_singleton
  push_dist-IsNearest k x [] seen n = pushed k x [] seen n
  push_dist-IsNearest k x (y ∷ l) seen n =
      elim (Bool-cases (lt y.dist x.dist && leb k (length (y ∷ l)))) [
        | inl out ↦ rw out (
            rejected k x y l seen (and_left (lt y.dist x.dist) (leb k (length (y ∷ l))) out)
              (leb→le k (length (y ∷ l))
                (and_right (lt y.dist x.dist) (leb k (length (y ∷ l))) out))
              n)
        | inr inside ↦ rw inside (pushed k x (y ∷ l) seen n)
      ]
