-- ===== src/LinkedList/Sort/Laws.antt =====
-- The sort of a list: it ends, and gives the elements in order.
use opendias.Base.{
  ℕ, zero, suc, ◌+◌, ◌≤◌, ◌≡◌, refl, ap, ◌∙◌, ◌⊎◌, inl, inr, Bool, true, false, Option, none, some,
  [], ◌∷◌, if◌then◌else◌, is_some, leb_iff, arith, All, Bool-cases,
}
use opendias.Base.Exec.{ok}
use opendias.Base.Int.{ℤ, pos_part, neg_part}
use opendias.LinkedList.{Element, Sll}
use opendias.LinkedList.Sort.{
  exceeds, go_on, swap_first, after_pass, sort_rounds, above, below, inversions, sll_sort,
}

module _ {V : Type 0} where
  -- Every element has data.
  abbrev pub IsFilled : Sll V → Type 0
  IsFilled es = All (λ e. is_some e.value ≡ true) es

  -- How many elements pass a test.
  unfoldable pub tally : (Element V → Bool) → Sll V → ℕ
  tally test [] = 0
  tally test (e ∷ es) = (if test e then 1 else 0) + tally test es

module _ {V : Type 0} (weight : V → ℤ) where
  -- No element exceeds the next one.
  pub IsOrdered : Sll V → Type 0
  IsOrdered [] = Unit
  IsOrdered (e ∷ []) = Unit
  IsOrdered (e ∷ f ∷ es) = (above weight e.value f.value ≡ false) × IsOrdered (f ∷ es)

  -- A list in order with the elements of another.
  pub record IsSort (es sorted : Sll V) : Type 0 where
    pub ordered : IsOrdered sorted
    pub same : (test : Element V → Bool) → tally test sorted ≡ tally test es

  above_asym : (a b : Option V) → above weight a b ≡ true → above weight b a ≡ false
  unfolding above
  above_asym none b h = cc
  above_asym (some x) none h = cc
  above_asym (some x) (some y) h =
      let a = pos_part (weight x) + neg_part (weight y) in
      let b = pos_part (weight y) + neg_part (weight x) in
      ground (arith, leb_iff a b, leb_iff b a, h)

  exceeds-above :
      (a b : Option V)
      → is_some a ≡ true
      → is_some b ≡ true
      → exceeds weight a b ≡ ok (above weight a b)
  unfolding exceeds above
  exceeds-above none b p q = cc
  exceeds-above (some x) none p q = cc
  exceeds-above (some x) (some y) p q = refl

  below-tally :
      (e : Element V) (es : Sll V)
      → below weight e es ≡ tally (λ f. above weight e.value f.value) es
  unfolding below tally
  below-tally e [] = refl
  below-tally e (f ∷ es) =
      ap (λ n. (if above weight e.value f.value then 1 else 0) + n) (below-tally e es)

  -- A swap: the elements are the same, and one pair less is out of order.
  record IsSwap (es es' : Sll V) : Type 0 where
    filled : IsFilled es'
    same : (test : Element V → Bool) → tally test es' ≡ tally test es
    fewer : suc (inversions weight es') ≡ inversions weight es

  here-IsSwap :
      (e f : Element V) (es : Sll V)
      → IsFilled (e ∷ f ∷ es)
      → above weight e.value f.value ≡ true
      → IsSwap (e ∷ f ∷ es) (f ∷ e ∷ es)
  unfolding tally inversions below
  here-IsSwap e f es (p, (q, r)) y = record {
    filled = (q, (p, r));
    same = λ test. omega arith;
    fewer = rw (y, above_asym e.value f.value y) (omega arith);
  }

  later-IsSwap :
      (e : Element V) (es es' : Sll V)
      → is_some e.value ≡ true
      → IsSwap es es'
      → IsSwap (e ∷ es) (e ∷ es')
  unfolding tally inversions
  later-IsSwap e es es' p s = record {
    filled = (p, s.filled);
    same = λ test. ap (λ n. (if test e then 1 else 0) + n) (s.same test);
    fewer = omega (
      arith,
      below-tally e es,
      below-tally e es',
      s.same (λ f. above weight e.value f.value),
      s.fewer,
    );
  }

  pass :
      (es : Sll V)
      → IsFilled es
      → ((swap_first weight es ≡ ok none) × IsOrdered es)
        ⊎ ((es' : Sll V) × (swap_first weight es ≡ ok (some es')) × IsSwap es es')
  unfolding swap_first go_on IsOrdered
  pass [] all = inl (refl, tt)
  pass (e ∷ []) all = inl (refl, tt)
  pass (e ∷ f ∷ es) (p, (q, r)) = elim (Bool-cases (above weight e.value f.value)) [
    | inl y ↦ inr (
      f ∷ e ∷ es,
      rw (exceeds-above e.value f.value p q, y) refl,
      here-IsSwap e f es (p, (q, r)) y,
    )
    | inr n ↦ elim (pass (f ∷ es) (q, r)) [
      | inl (z, o) ↦ inl (rw (exceeds-above e.value f.value p q, n, z) refl, (n, o))
      | inr (es', z, s) ↦ inr (
        e ∷ es',
        rw (exceeds-above e.value f.value p q, n, z) refl,
        later-IsSwap e (f ∷ es) es' p s,
      )
    ]
  ]

  sort_rounds-IsSort :
      (rounds : ℕ) (es : Sll V)
      → IsFilled es
      → suc (inversions weight es) ≤ rounds
      → (sorted : Sll V) × (sort_rounds weight rounds es ≡ ok sorted) × IsSort es sorted
  unfolding sort_rounds after_pass
  sort_rounds-IsSort zero es all le = absurd (omega arith)
  sort_rounds-IsSort (suc rounds) es all le = elim (pass es all) [
    | inl (z, o) ↦ (es, rw z refl, record { ordered = o; same = λ test. refl })
    | inr (es', z, s) ↦
        let (sorted, e, is) = sort_rounds-IsSort rounds es' s.filled (omega (arith, s.fewer)) in
        (sorted, rw z e, record { ordered = is.ordered; same = λ test. is.same test ∙ s.same test })
  ]

  -- For a list whose elements have data the sort ends within one round more than there are pairs out
  -- of order, and gives the same elements, in order.
  pub sll_sort-IsSort :
      (es : Sll V)
      → IsFilled es
      → (sorted : Sll V) × (sll_sort weight es ≡ ok sorted) × IsSort es sorted
  unfolding sll_sort
  sll_sort-IsSort es all = sort_rounds-IsSort (suc (inversions weight es)) es all (omega arith)
