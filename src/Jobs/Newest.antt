-- ===== src/Jobs/Newest.antt =====
-- The eviction of a bounded store leaves the newest IDs, and their jobs as they were.
use kube_cost.Prelude.{
  ℕ, zero, suc, ◌-◌, ◌≤◌, String, false, ◌||◌, none, List, [], ◌∷◌, ◌++◌, eq_iff, if◌then◌else◌,
  ltb, length, drop, ◌≡◌, refl, sym, ap, ◌∙◌, arith, Bool-cases, inl, inr, length-append,
  length-drop,
}
use kube_cost.Prelude.Dict.{get, remove, get-remove, mem}
use kube_cost.Jobs.{evict}

abbrev pub Distinct : List String → Type 0
Distinct [] = Unit
Distinct (x ∷ xs) = (mem x xs ≡ false) × Distinct xs

pub mem-append : (s : String) (xs ys : List String) → mem s (xs ++ ys) ≡ (mem s xs || mem s ys)
mem-append s [] ys = refl
mem-append s (x ∷ xs) ys = ground (arith, mem-append s xs ys)

pub Distinct-append :
    (xs : List String) (x : String) → Distinct xs → mem x xs ≡ false → Distinct (xs ++ x ∷ [])
Distinct-append [] x d h = (refl, tt)
Distinct-append (y ∷ xs) x d h = (
  ground (arith, mem-append y xs (x ∷ []), d.0, h, eq_iff x y, eq_iff y x),
  Distinct-append xs x d.1 (ground (arith, h)),
)

pub mem-drop :
    (s : String) (n : ℕ) (xs : List String) → mem s xs ≡ false → mem s (drop n xs) ≡ false
mem-drop s zero xs h = h
mem-drop s (suc n) [] h = refl
mem-drop s (suc n) (x ∷ xs) h = mem-drop s n xs (ground (arith, h))

pub Distinct-drop : (n : ℕ) (xs : List String) → Distinct xs → Distinct (drop n xs)
Distinct-drop zero xs d = d
Distinct-drop (suc n) [] d = tt
Distinct-drop (suc n) (x ∷ xs) d = Distinct-drop n xs d.1

drop-append :
    {A : Type 0} (n : ℕ) (xs ys : List A) → n ≤ length xs → drop n (xs ++ ys) ≡ drop n xs ++ ys
drop-append zero xs ys h = refl
drop-append (suc n) [] ys h = absurd (omega (arith, h))
drop-append (suc n) (x ∷ xs) ys h = drop-append n xs ys (omega (arith, h))

drop-suc : {A : Type 0} (n : ℕ) (xs : List A) → drop (suc n) xs ≡ drop 1 (drop n xs)
drop-suc zero xs = refl
drop-suc (suc n) [] = refl
drop-suc (suc n) (x ∷ xs) = drop-suc n xs

pub drop_none : (n : ℕ) → ◌≡◌ {A = List String} [] (drop n [])
drop_none zero = refl
drop_none (suc n) = refl

-- The last `n` of a list.
abbrev pub newest {ℓ} : {A : Type ℓ} → ℕ → List A → List A
newest n xs = drop (length xs - n) xs

pub newest-append :
    {A : Type 0} (n : ℕ) (xs : List A) (x : A)
    → newest n (newest n xs ++ x ∷ []) ≡ newest n (xs ++ x ∷ [])
newest-append n xs x =
    let k = length xs - n in
    let few = length-drop k xs in
    let more = length-append (drop k xs) (x ∷ []) in
    let all = length-append xs (x ∷ []) in
    elim (Bool-cases (ltb (length xs) n)) [
      | inl e ↦ let z : k ≡ 0 = ground (arith, e) in rw z refl
      | inr e ↦
          let left : length (drop k xs ++ x ∷ []) - n ≡ 1 = ground (arith, few, more, e) in
          let right : length (xs ++ x ∷ []) - n ≡ suc k = ground (arith, all, e) in
          ap (λ i. drop i (newest n xs ++ x ∷ [])) left
          ∙ ap (drop 1) (sym (drop-append k xs (x ∷ []) (omega arith)))
          ∙ sym (drop-suc k (xs ++ x ∷ []))
          ∙ ap (λ i. drop i (xs ++ x ∷ [])) (sym right)
    ]

module _ {J : Type 0} where
  pub evict-order :
      (n : ℕ) (order : List String) (jobs : List (String × J))
      → (evict n order jobs).0 ≡ newest n order
  unfolding evict
  evict-order n [] jobs = drop_none (0 - n)
  evict-order n (x ∷ xs) jobs = elim (Bool-cases (ltb n (length (x ∷ xs)))) [
    | inl e ↦
        let k : length (x ∷ xs) - n ≡ suc (length xs - n) = ground (arith, e) in
        rw (e, k) (evict-order n xs (remove jobs x))
    | inr e ↦ let k : length (x ∷ xs) - n ≡ 0 = ground (arith, e) in rw (e, k) refl
  ]

  pub mem-evict :
      (id : String) (n : ℕ) (order : List String) (jobs : List (String × J))
      → mem id order ≡ false
      → mem id (evict n order jobs).0 ≡ false
  mem-evict id n order jobs h =
      rw (evict-order n order jobs) (mem-drop id (length order - n) order h)

  pub evict-get :
      (id : String) (n : ℕ) (order : List String) (jobs : List (String × J))
      → Distinct order
      → ((i : String) → mem i order ≡ false → get jobs i ≡ none)
      → get (evict n order jobs).1 id
        ≡ (if mem id (evict n order jobs).0 then get jobs id else none)
  unfolding evict
  evict-get id n [] jobs d h = h id refl
  evict-get id n (x ∷ xs) jobs d h = elim (Bool-cases (ltb n (length (x ∷ xs)))) [
    | inl e ↦
        let rest =
          evict-get id n xs (remove jobs x) d.1
            (λ i m. ground (arith, get-remove jobs x i, h i, m)) in
        rw e (
          ground
            (arith, rest, get-remove jobs x id, mem-evict x n xs (remove jobs x) d.0, eq_iff x id))
    | inr e ↦ rw e (ground (arith, h id))
  ]
