-- ===== src/Query/Pages.antt =====
-- Reading a listing page by page: what `paginate` makes of a slice of a table, and what a caller
-- that follows the cursors gets.
use kube_cost.Prelude.{
  ℕ, zero, suc, ◌+◌, ◌≤◌, ◌<◌, String, true, false, Option, none, some, List, [], ◌∷◌, ◌++◌, str_eq,
  if◌then◌else◌, leb, length, take, drop, map, ◌≡◌, refl, sym, ap, ◌∙◌, arith, Bool-cases, inl, inr,
  length-take, length-drop, leb→le, le→leb, take-append-drop,
}
use kube_cost.Wire.{pos}
use kube_cost.Http.{Reply, json, problem}
use kube_cost.Query.{AnalyticsQuery, Codecs, normalized_analytics_limit}
use kube_cost.Query.Cursors.{max_int, add_int, paginate, cursor_of, encode_analytics_cursor}

-- A caller that asks for page after page, each time with the last answer's cursor, until an answer
-- has none. `none` is a problem on the way, or too little fuel.
unfoldable pub read_pages {ℓ κ} :
    {R : Type ℓ} {A : Type κ}
    → (String → Reply R)
    → (R → List A × String)
    → ℕ
    → String
    → Option (List A)
read_pages ask page_of zero cursor = none
read_pages ask page_of (suc fuel) cursor = elim (ask cursor) [
  | problem p ↦ none
  | json answer ↦
      let next = (page_of answer).1 in
      let rest = read_pages ask page_of fuel next in
      if str_eq next ""
      then some (page_of answer).0
      else elim rest [ none ↦ none | some rows ↦ some ((page_of answer).0 ++ rows) ]
]

module _ {ℓ} {A : Type ℓ} where
  pub take-take : (n : ℕ) (xs : List A) → take n (take (suc n) xs) ≡ take n xs
  take-take zero xs = refl
  take-take (suc n) [] = refl
  take-take (suc n) (x ∷ xs) = ap (λ ys. x ∷ ys) (take-take n xs)

  pub take_all : (n : ℕ) (xs : List A) → length xs ≤ n → take n xs ≡ xs
  take_all zero [] h = refl
  take_all zero (x ∷ xs) h = absurd (omega (arith, h))
  take_all (suc n) [] h = refl
  take_all (suc n) (x ∷ xs) h = ap (λ ys. x ∷ ys) (take_all n xs (omega (arith, h)))

  drop_nil : (n : ℕ) → drop {A = A} n [] ≡ []
  drop_nil zero = refl
  drop_nil (suc n) = refl

  pub drop_add : (o n : ℕ) (xs : List A) → drop (o + n) xs ≡ drop n (drop o xs)
  drop_add zero n xs = let e : 0 + n ≡ n = omega arith in rw e refl
  drop_add (suc o) n [] = let e : suc o + n ≡ suc (o + n) = omega arith in rw e (sym (drop_nil n))
  drop_add (suc o) n (x ∷ xs) =
      let e : suc o + n ≡ suc (o + n) = omega arith in rw e (drop_add o n xs)

module _ {ℓ κ} {A : Type ℓ} {B : Type κ} where
  pub map-take : (f : A → B) (n : ℕ) (xs : List A) → map f (take n xs) ≡ take n (map f xs)
  map-take f zero xs = refl
  map-take f (suc n) [] = refl
  map-take f (suc n) (x ∷ xs) = ap (λ ys. f x ∷ ys) (map-take f n xs)

  pub map-drop : (f : A → B) (n : ℕ) (xs : List A) → map f (drop n xs) ≡ drop n (map f xs)
  map-drop f zero xs = refl
  map-drop f (suc n) [] = refl
  map-drop f (suc n) (x ∷ xs) = map-drop f n xs

-- The page at an offset of a table, and the cursor after it.
abbrev pub page_at {ℓ} : {A : Type ℓ} → List A → ℕ → (ℕ → String) → ℕ → List A × String
page_at table limit cursor_at o = (
  take limit (drop o table),
  if leb (length table) (o + limit) then "" else cursor_at (o + limit),
)

abbrev pub cursor_at : Codecs → AnalyticsQuery → String → ℕ → String
cursor_at codecs query kind o = encode_analytics_cursor codecs (cursor_of codecs query kind (pos o))

-- `paginate` on one row more than the limit: the page, and a cursor exactly if there are more rows.
pub paginate-slice {ℓ} :
    {A : Type ℓ} (codecs : Codecs) (table : List A) (query : AnalyticsQuery) (kind : String) (o : ℕ)
    → query.offset ≡ pos o
    → length table ≤ max_int
    → paginate codecs
        (take (suc (normalized_analytics_limit query.limit)) (drop o table))
        query
        kind
      ≡ page_at table (normalized_analytics_limit query.limit) (cursor_at codecs query kind) o
unfolding paginate
paginate-slice codecs table query kind o at small =
    let limit = normalized_analytics_limit query.limit in
    let slice = take (suc limit) (drop o table) in
    let size = length-take (suc limit) (drop o table) in
    let left = length-drop o table in
    elim (Bool-cases (leb (length slice) limit)) [
      | inl e ↦
          let all : slice ≡ take limit (drop o table) =
            sym (take_all limit slice (leb→le _ _ e)) ∙ take-take limit (drop o table) in
          let last : leb (length table) (o + limit) ≡ true =
            le→leb _ _ (omega (arith, leb→le _ _ e, size, left)) in
          ground (arith, e, all, last)
      | inr e ↦
          let more : leb (length table) (o + limit) ≡ false = ground (arith, e, size, left) in
          let next : add_int query.offset limit ≡ pos (o + limit) =
            ground (arith, at, small, more) in
          ground (arith, e, next, more, take-take limit (drop o table))
    ]

read_pages-json :
    {R : Type 0} {A : Type 0} (ask : String → Reply R) (page_of : R → List A × String) (fuel : ℕ)
    (cursor : String) (answer : R) (rows : List A) (next : String)
    → ask cursor ≡ json answer
    → page_of answer ≡ (rows, next)
    → str_eq next "" ≡ false
    → (rest : List A) → read_pages ask page_of fuel next ≡ some rest
    → read_pages ask page_of (suc fuel) cursor ≡ some (rows ++ rest)
unfolding read_pages
read_pages-json ask page_of fuel cursor answer rows next asked shape more rest h =
    let n : (page_of answer).1 ≡ next = ap (λ p. p.1) shape in
    let r : (page_of answer).0 ≡ rows = ap (λ p. p.0) shape in ground (arith, asked, n, r, more, h)

read_pages-last :
    {R : Type 0} {A : Type 0} (ask : String → Reply R) (page_of : R → List A × String) (fuel : ℕ)
    (cursor : String) (answer : R) (rows : List A)
    → ask cursor ≡ json answer
    → page_of answer ≡ (rows, "")
    → read_pages ask page_of (suc fuel) cursor ≡ some rows
unfolding read_pages
read_pages-last ask page_of fuel cursor answer rows asked shape =
    let n : (page_of answer).1 ≡ "" = ap (λ p. p.1) shape in
    let r : (page_of answer).0 ≡ rows = ap (λ p. p.0) shape in
    let e : str_eq (page_of answer).1 "" ≡ true = rw n refl in ground (arith, asked, e, r)

-- What the answers to the cursors have to be.
pub record IsPaged {R : Type 0} {A : Type 0} (ask : String → Reply R)
    (page_of : R → List A × String) (table : List A) (limit : ℕ) (cursors : ℕ → String)
    : Type 0 where
  pub answer : ℕ → R
  pub shape : (o : ℕ) → page_of (answer o) ≡ page_at table limit cursors o
  pub first : ask "" ≡ json (answer 0)
  pub asked : (o : ℕ) → ask (cursors o) ≡ json (answer o)
  pub named : (o : ℕ) → str_eq (cursors o) "" ≡ false
  pub progress : 0 < limit

module _ {R : Type 0} {A : Type 0} (ask : String → Reply R) (page_of : R → List A × String)
    (table : List A) (limit : ℕ) (cursors : ℕ → String)
    (h : IsPaged ask page_of table limit cursors) where
  read_pages_from :
      (fuel o : ℕ) (cursor : String)
      → ask cursor ≡ json (h.answer o)
      → length table < o + fuel
      → o ≤ length table
      → read_pages ask page_of fuel cursor ≡ some (drop o table)
  read_pages_from zero o cursor asked enough inside = absurd (omega (arith, enough, inside))
  read_pages_from (suc fuel) o cursor asked enough inside =
      let page = take limit (drop o table) in
      elim (Bool-cases (leb (length table) (o + limit))) [
        | inl e ↦
            let shape : page_of (h.answer o) ≡ (page, "") = ground (arith, h.shape o, e) in
            let rows : page ≡ drop o table =
              take_all limit (drop o table) (omega (arith, leb→le _ _ e, length-drop o table)) in
            read_pages-last ask page_of fuel cursor (h.answer o) page asked shape ∙ ap some rows
        | inr e ↦
            let shape : page_of (h.answer o) ≡ (page, cursors (o + limit)) =
              ground (arith, h.shape o, e) in
            let rest =
              read_pages_from fuel (o + limit) (cursors (o + limit)) (h.asked (o + limit))
                (omega (arith, h.progress, enough)) (ground (arith, e)) in
            let whole : page ++ drop (o + limit) table ≡ drop o table =
              rw (drop_add o limit table) (take-append-drop limit (drop o table)) in
            read_pages-json ask page_of fuel cursor (h.answer o) page (cursors (o + limit)) asked
              shape (h.named (o + limit)) (drop (o + limit) table) rest
            ∙ ap some whole
      ]

  pub read_pages_lem :
      (fuel : ℕ) → length table < fuel → read_pages ask page_of fuel "" ≡ some table
  read_pages_lem fuel enough =
      read_pages_from fuel 0 "" h.first (omega (arith, enough)) (omega arith)
