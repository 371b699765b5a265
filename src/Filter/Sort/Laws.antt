-- ===== src/Filter/Sort/Laws.antt =====
-- `BubbleSort` of oradar_ros/sdk/src/filters/FullScanFilter.cpp sorts.
use cqut_lgv.Common.{
  ℕ, zero, suc, ◌+◌, ◌-◌, ◌≤◌, ◌<◌, ◌≡◌, refl, ap, subst, ◌∙◌, inl, inr, List, [], ◌∷◌, ◌++◌, arith,
  ltb, ltb→lt, ltb→ge, if◌then◌else◌, Bool-cases, length, get_or, All, append_assoc, append-nil,
  length-append, ◌==◌,
}
use cqut_lgv.Filter.Sort.{swap, bubble_inner, bubble_outer, bubble_sort}

-- The inner loop as one pass over the list.
bubble : ℕ → List ℕ → List ℕ
bubble zero items = items
bubble (suc n) [] = []
bubble (suc n) (x ∷ []) = x ∷ []
bubble (suc n) (x ∷ y ∷ items) =
    if ltb y x then y ∷ bubble n (x ∷ items) else x ∷ bubble n (y ∷ items)

-- An index further on in a longer list.
bubble_inner-cons :
    (n j x : ℕ) (items : List ℕ) → bubble_inner n (suc j) (x ∷ items) ≡ x ∷ bubble_inner n j items
unfolding bubble_inner
bubble_inner-cons zero j x items = refl
bubble_inner-cons (suc n) j x items =
    elim (Bool-cases (ltb (get_or items (suc j) 0) (get_or items j 0))) [
      | inl t ↦ rw t (bubble_inner-cons n (suc j) x (swap items j (suc j)))
      | inr t ↦ rw t (bubble_inner-cons n (suc j) x items)
    ]

bubble_inner-bubble :
    (n : ℕ) (items : List ℕ) → n < length items → bubble_inner n 0 items ≡ bubble n items
unfolding bubble_inner bubble
bubble_inner-bubble zero items h = refl
bubble_inner-bubble (suc n) [] h = absurd (omega arith)
bubble_inner-bubble (suc n) (x ∷ []) h = absurd (omega arith)
bubble_inner-bubble (suc n) (x ∷ y ∷ items) h = elim (Bool-cases (ltb y x)) [
  | inl t ↦ rw t (
      bubble_inner-cons n 0 y (x ∷ items)
      ∙ ap (◌∷◌ y) (bubble_inner-bubble n (x ∷ items) (omega arith)))
  | inr t ↦ rw t (
      bubble_inner-cons n 0 x (y ∷ items)
      ∙ ap (◌∷◌ x) (bubble_inner-bubble n (y ∷ items) (omega arith)))
]

-- How often a value occurs.
abbrev pub count : ℕ → List ℕ → ℕ
count v [] = 0
count v (x ∷ xs) = (if x == v then 1 else 0) + count v xs

count-append : (v : ℕ) (xs ys : List ℕ) → count v (xs ++ ys) ≡ count v xs + count v ys
count-append v [] ys = omega arith
count-append v (x ∷ xs) ys = omega (arith, count-append v xs ys)

-- Each value is at most all later ones.
abbrev pub IsSorted : List ℕ → Type 0
IsSorted [] = Unit
IsSorted (x ∷ xs) = All (λ y. x ≤ y) xs × IsSorted xs

-- What a pass over `n + 1` items does: the greatest of them comes last.
record Passed (items : List ℕ) (n : ℕ) (out : List ℕ) : Type 0 where
  front : List ℕ
  top : ℕ
  layout : out ≡ front ++ (top ∷ [])
  size : length front ≡ n
  above : All (λ x. x ≤ top) front
  bounded : All (λ x. x ≤ top) items
  counts : (v : ℕ) → count v out ≡ count v items

Passed-cons :
    (x y : ℕ) (items : List ℕ) (n : ℕ) (out : List ℕ)
    → x ≤ y
    → Passed (y ∷ items) n out
    → Passed (x ∷ y ∷ items) (suc n) (x ∷ out)
Passed-cons x y items n out le p = record {
  front = x ∷ p.front;
  top = p.top;
  layout = ap (◌∷◌ x) p.layout;
  size = ap suc p.size;
  above = (omega (arith, p.bounded.0), p.above);
  bounded = (omega (arith, p.bounded.0), p.bounded);
  counts = λ v. omega (arith, p.counts v);
}

Passed-swap :
    (x y : ℕ) (items : List ℕ) (n : ℕ) (out : List ℕ)
    → Passed (y ∷ x ∷ items) n out
    → Passed (x ∷ y ∷ items) n out
Passed-swap x y items n out p = record {
  front = p.front;
  top = p.top;
  layout = p.layout;
  size = p.size;
  above = p.above;
  bounded = (p.bounded.1.0, (p.bounded.0, p.bounded.1.1));
  counts = λ v. omega (arith, p.counts v);
}

bubble-Passed : (n : ℕ) (items : List ℕ) → length items ≡ suc n → Passed items n (bubble n items)
unfolding bubble
bubble-Passed zero [] e = absurd (omega arith)
bubble-Passed zero (x ∷ []) e = record {
  front = [];
  top = x;
  layout = refl;
  size = refl;
  above = tt;
  bounded = (omega arith, tt);
  counts = λ v. refl;
}
bubble-Passed zero (x ∷ y ∷ items) e = absurd (omega arith)
bubble-Passed (suc n) [] e = absurd (omega arith)
bubble-Passed (suc n) (x ∷ []) e = absurd (omega arith)
bubble-Passed (suc n) (x ∷ y ∷ items) e = elim (Bool-cases (ltb y x)) [
  | inl t ↦ rw t (
      Passed-swap x y items (suc n) _ (
        Passed-cons y x items n _ (omega (arith, ltb→lt y x t))
          (bubble-Passed n (x ∷ items) (omega arith))))
  | inr t ↦
      rw t (Passed-cons x y items n _ (ltb→ge y x t) (bubble-Passed n (y ∷ items) (omega arith)))
]

-- A pass over the first items leaves the others, and keeps what holds of every item.
bubble-append :
    (n : ℕ) (items rest : List ℕ)
    → length items ≡ suc n
    → bubble n (items ++ rest) ≡ bubble n items ++ rest
unfolding bubble
bubble-append zero items rest e = refl
bubble-append (suc n) [] rest e = absurd (omega arith)
bubble-append (suc n) (x ∷ []) rest e = absurd (omega arith)
bubble-append (suc n) (x ∷ y ∷ items) rest e = elim (Bool-cases (ltb y x)) [
  | inl t ↦ rw t (ap (◌∷◌ y) (bubble-append n (x ∷ items) rest (omega arith)))
  | inr t ↦ rw t (ap (◌∷◌ x) (bubble-append n (y ∷ items) rest (omega arith)))
]

bubble-All {ℓ} : (P : ℕ → Type ℓ) (n : ℕ) (items : List ℕ) → All P items → All P (bubble n items)
unfolding bubble
bubble-All P zero items h = h
bubble-All P (suc n) [] h = h
bubble-All P (suc n) (x ∷ []) h = h
bubble-All P (suc n) (x ∷ y ∷ items) (hx, (hy, h)) = elim (Bool-cases (ltb y x)) [
  | inl t ↦ rw t (hy, bubble-All P n (x ∷ items) (hx, h))
  | inr t ↦ rw t (hx, bubble-All P n (y ∷ items) (hy, h))
]

All-last {ℓ} :
    {A : Type ℓ} (P : A → Type ℓ) (xs : List A) (x : A) → All P (xs ++ (x ∷ [])) → All P xs × P x
All-last P [] x h = (tt, h.0)
All-last P (y ∷ xs) x h = ((h.0, (All-last P xs x h.1).0), (All-last P xs x h.1).1)

All-both {ℓ} :
    {A : Type ℓ} (P Q : A → Type ℓ) (xs : List A) → All P xs → All Q xs → All (λ x. P x × Q x) xs
All-both P Q [] h k = tt
All-both P Q (x ∷ xs) h k = ((h.0, k.0), All-both P Q xs h.1 k.1)

abbrev Sorts : List ℕ → List ℕ → Type 0
Sorts items out = IsSorted out × ((v : ℕ) → count v out ≡ count v items)

-- The rounds of the outer loop: `low` is not sorted yet, `high` is, and nothing in `low` is above it.
outer-Sorts :
    (len rounds i : ℕ) (low high : List ℕ)
    → length low ≡ suc rounds
    → suc (rounds + i) ≡ len
    → IsSorted high
    → All (λ a. All (λ b. a ≤ b) high) low
    → Sorts (low ++ high) (bubble_outer rounds i len (low ++ high))
unfolding bubble_outer
outer-Sorts len zero i [] high e el s b = absurd (omega arith)
outer-Sorts len zero i (x ∷ []) high e el s b = ((b.0, s), λ v. refl)
outer-Sorts len zero i (x ∷ y ∷ low) high e el s b = absurd (omega arith)
outer-Sorts len (suc rounds) i low high e el s b =
    let (sorted, counts) =
      outer-Sorts len rounds (suc i) p.front (p.top ∷ high) (omega (arith, p.size)) (omega arith)
        (split.1, s)
        (All-both (λ a. a ≤ p.top) (λ a. All (λ c. a ≤ c) high) p.front p.above split.0) in
    rw passed (sorted, λ v. counts v ∙ count_passed v)
  where
    p : Passed low (suc rounds) (bubble (suc rounds) low)
    p = bubble-Passed (suc rounds) low e

    split : All (λ a. All (λ c. a ≤ c) high) p.front × All (λ c. p.top ≤ c) high
    split =
        All-last (λ a. All (λ c. a ≤ c) high) p.front p.top
          (subst (All (λ a. All (λ c. a ≤ c) high)) p.layout (bubble-All _ (suc rounds) low b))

    rounds_eq : len - 1 - i ≡ suc rounds
    rounds_eq = omega arith

    passed : bubble_inner (len - 1 - i) 0 (low ++ high) ≡ p.front ++ (p.top ∷ high)
    passed = rw rounds_eq (
        bubble_inner-bubble (suc rounds) (low ++ high) (omega (arith, length-append low high))
        ∙ (bubble-append (suc rounds) low high e
            ∙ (ap (λ xs. xs ++ high) p.layout ∙ append_assoc p.front (p.top ∷ []) high)))

    count_passed : (v : ℕ) → count v (p.front ++ (p.top ∷ high)) ≡ count v (low ++ high)
    count_passed v = omega (
      arith,
      count-append v p.front (p.top ∷ high),
      count-append v low high,
      p.counts v,
      ap (count v) p.layout,
      count-append v p.front (p.top ∷ []),
    )

All-unit {ℓ} : {A : Type ℓ} (xs : List A) → All (λ _. Unit {0}) xs
All-unit [] = tt
All-unit (x ∷ xs) = (tt, All-unit xs)

-- `BubbleSort` over a whole array sorts it, and every value occurs as often as before.
pub bubble_sort-IsSorted :
    (items : List ℕ)
    → IsSorted (bubble_sort items (length items))
      × ((v : ℕ) → count v (bubble_sort items (length items)) ≡ count v items)
unfolding bubble_sort
bubble_sort-IsSorted [] = (tt, λ v. refl)
bubble_sort-IsSorted (x ∷ items) =
    let sorts : Sorts ((x ∷ items) ++ [])
        (bubble_outer (length items) 0 (suc (length items)) ((x ∷ items) ++ [])) =
      outer-Sorts (suc (length items)) (length items) 0 (x ∷ items) [] refl (omega arith) tt
        (All-unit (x ∷ items)) in
    let rounds_eq : suc (length items) - 1 ≡ length items = omega arith in
    rw rounds_eq (
      subst (λ xs. Sorts xs (bubble_outer (length items) 0 (suc (length items)) xs))
        (append-nil (x ∷ items)) sorts)
