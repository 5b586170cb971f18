-- ===== src/Tree/Layers.antt =====
-- goko/src/covertree/builders.rs, layer.rs and tree.rs: the layers that `build` makes, the scales of a
-- tree, and its layers with their scales.
use goko.Common.{
  ℕ, zero, suc, ◌+◌, ◌<◌, ◌≤◌, ◌≡◌, ◌∙◌, ◌⊎◌, refl, ap, true, false, some, none, List, [], ◌∷◌,
  length, inl, inr, get_elem?, arith, if◌then◌else◌, Bool-cases,
}
use goko.Common.Int.{ℤ, pos, pos_part, ◌+ℤ◌, ◌-ℤ◌, ltb_ℤ}
use goko.Common.Outcome.{Outcome, ok, panic}
use goko.Cover.Node.{GokoError}
use goko.Tree.Reader.{CoverTree, CoverLayer, layer, internal_index}

module _ {F : Type 0} where
  -- `CoverLayerWriter::new`
  unfoldable pub empty_layer : ℤ → CoverLayer F
  empty_layer scale = record { scale_index = scale; nodes = [] }

  -- `for i in 0..(scale_range + 1)`, from the number `i` on.
  unfoldable pub layers_from : ℤ → ℕ → ℕ → List (CoverLayer F)
  layers_from min_res i zero = []
  layers_from min_res i (suc n) = empty_layer (min_res +ℤ pos i) ∷ layers_from min_res (suc i) n

  -- The layers of `build`, where the scale range fits an `i32`: a negative one, cast to `usize`, is a
  -- capacity that panics.
  unfoldable pub new_layers : ℤ → ℤ → Outcome GokoError (List (CoverLayer F))
  new_layers min_res root_scale =
      if ltb_ℤ root_scale min_res
      then panic
      else ok (
          empty_layer (min_res -ℤ pos 1)
          ∷ layers_from min_res 0 (pos_part (root_scale -ℤ min_res) + 1))

  -- `CoverTreeReader::scale_range`: the first scale and the one past the last.
  unfoldable pub scale_range : CoverTree F → ℤ × ℤ
  scale_range t = (t.min_res_index, t.min_res_index -ℤ pos 1 +ℤ pos (length t.layers))

  layers_from-in :
      (min_res : ℤ) (i n k : ℕ)
      → k < n
      → get_elem? (layers_from min_res i n) k ≡ some (empty_layer (min_res +ℤ pos (i + k)))
  unfolding layers_from
  layers_from-in min_res i zero k h = absurd (omega arith)
  layers_from-in min_res i (suc n) zero h =
      ap (λ j. some (empty_layer (min_res +ℤ pos j))) (omega arith)
  layers_from-in min_res i (suc n) (suc k) h =
      layers_from-in min_res (suc i) n k (omega arith)
      ∙ ap (λ j. some (empty_layer (min_res +ℤ pos j))) (omega arith)

  layers_from-past :
      (min_res : ℤ) (i n k : ℕ) → n ≤ k → get_elem? (layers_from min_res i n) k ≡ none
  unfolding layers_from
  layers_from-past min_res i zero k h = refl
  layers_from-past min_res i (suc n) zero h = absurd (omega arith)
  layers_from-past min_res i (suc n) (suc k) h = layers_from-past min_res (suc i) n k (omega arith)

length-layers_from :
    (F : Type 0) (min_res : ℤ) (i n : ℕ) → length (layers_from {F = F} min_res i n) ≡ n
unfolding layers_from
length-layers_from F min_res i zero = refl
length-layers_from F min_res i (suc n) = ap suc (length-layers_from F min_res (suc i) n)

-- The place of a scale among the layers from the least one on.
place_of : (s m : ℤ) → ltb_ℤ s m ≡ false → pos_part (s -ℤ m +ℤ pos 1) ≡ suc (pos_part (s -ℤ m))
unfolding ◌+ℤ◌ ◌-ℤ◌
place_of s m h = ground arith

back : (s m : ℤ) → ltb_ℤ s m ≡ false → m +ℤ pos (0 + pos_part (s -ℤ m)) ≡ s
unfolding ◌+ℤ◌ ◌-ℤ◌
back s m h = ground arith

place_le :
    (r s m : ℤ)
    → ltb_ℤ r m ≡ false
    → ltb_ℤ r s ≡ false
    → ltb_ℤ s m ≡ false
    → pos_part (s -ℤ m) < pos_part (r -ℤ m) + 1
unfolding ◌-ℤ◌
place_le r s m g h k = ground arith

place_past :
    (r s m : ℤ) → ltb_ℤ r m ≡ false → ltb_ℤ r s ≡ true → pos_part (r -ℤ m) + 1 ≤ pos_part (s -ℤ m)
unfolding ◌-ℤ◌
place_past r s m g h = ground arith

top_of :
    (r m : ℤ) → ltb_ℤ r m ≡ false → m -ℤ pos 1 +ℤ pos (suc (pos_part (r -ℤ m) + 1)) ≡ r +ℤ pos 1
unfolding ◌+ℤ◌ ◌-ℤ◌
top_of r m h = ground arith

module _ {F : Type 0} where
  layer_at :
      (t : CoverTree F) (root s : ℤ)
      → ltb_ℤ root t.min_res_index ≡ false
      → layer
          (record t {
            layers =
                empty_layer (t.min_res_index -ℤ pos 1)
                ∷ layers_from t.min_res_index 0 (pos_part (root -ℤ t.min_res_index) + 1);
          })
          s
        ≡ (if ltb_ℤ root s
            then panic
            else ok (empty_layer (if ltb_ℤ s t.min_res_index then t.min_res_index -ℤ pos 1 else s)))
  unfolding layer internal_index
  layer_at t root s above = elim (Bool-cases (ltb_ℤ s t.min_res_index)) [
    | inl low ↦ let under : ltb_ℤ root s ≡ false = ground arith in rw (low, under) refl
    | inr high ↦ elim (Bool-cases (ltb_ℤ root s)) [
      | inl over ↦
          rw
            (
              high,
              over,
              place_of s t.min_res_index high,
              layers_from-past {F = F} t.min_res_index 0 (pos_part (root -ℤ t.min_res_index) + 1)
                  (pos_part (s -ℤ t.min_res_index)) (place_past root s t.min_res_index above over),
            )
            refl
      | inr within ↦
          rw
            (
              high,
              within,
              place_of s t.min_res_index high,
              layers_from-in {F = F} t.min_res_index 0 (pos_part (root -ℤ t.min_res_index) + 1)
                  (pos_part (s -ℤ t.min_res_index))
                  (place_le root s t.min_res_index above within high),
              back s t.min_res_index high,
            )
            refl
    ]
  ]

  -- Where the root is below the least scale, the layers of `build` panic. Otherwise there are layers,
  -- and a tree with them reads, at a scale up to that of its root, the layer of this scale, or the one
  -- below the least scale for all scales below that, and panics at a scale above its root; its scale
  -- range is from the least scale to that of the root.
  pub new_layers-layer :
      (t : CoverTree F) (root s : ℤ)
      → (ltb_ℤ root t.min_res_index ≡ true) × (new_layers {F = F} t.min_res_index root ≡ panic)
        ⊎ (ltb_ℤ root t.min_res_index ≡ false)
          × (ls : List (CoverLayer F)) × (new_layers t.min_res_index root ≡ ok ls)
          × (layer (record t { layers = ls }) s ≡ (
              if ltb_ℤ root s
              then panic
              else ok
                  (empty_layer (if ltb_ℤ s t.min_res_index then t.min_res_index -ℤ pos 1 else s))))
          × (scale_range (record t { layers = ls }) ≡ (t.min_res_index, root +ℤ pos 1))
  unfolding new_layers scale_range
  new_layers-layer t root s = elim (Bool-cases (ltb_ℤ root t.min_res_index)) [
    | inl below ↦ inl (below, rw below refl)
    | inr above ↦
        let m = t.min_res_index in
        let n = pos_part (root -ℤ m) + 1 in
        inr (
          above,
          empty_layer (m -ℤ pos 1) ∷ layers_from m 0 n,
          rw above refl,
          layer_at t root s above,
          ap (λ k. (m, m -ℤ pos 1 +ℤ pos (suc k))) (length-layers_from F m 0 n)
              ∙ ap (λ k. (m, k)) (top_of root m above),
        )
  ]
