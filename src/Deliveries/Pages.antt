-- ===== src/Deliveries/Pages.antt =====
-- app/services/api_delivery_service.py, `pull`: the pages of a client that follows the cursor.
use tg_forwarder.Prelude.{
  ℕ, zero, suc, ◌≤◌, ◌<◌, ◌≡◌, refl, ◌∙◌, ap, true, false, ◌&&◌, List, [], ◌∷◌, arith, ◌==◌, ltb,
  length, take, drop, keep, Bool-cases, inl, inr, take_all, take-append-drop, length-take,
  length-drop,
}
use tg_forwarder.Deliveries.{ApiDelivery, after, pull, next_cursor, pull_pages, Increasing}

Increasing-below : (a b : ℕ) (ds : List ApiDelivery) → a ≤ b → Increasing b ds → Increasing a ds
Increasing-below a b [] le h = tt
Increasing-below a b (d ∷ ds) le h = (omega arith, h.1)

after-Increasing :
    (endpoint cursor c : ℕ) (rows : List ApiDelivery)
    → Increasing c rows
    → Increasing c (after endpoint cursor rows)
after-Increasing endpoint cursor c [] h = tt
after-Increasing endpoint cursor c (d ∷ ds) h =
    elim (Bool-cases (d.api_endpoint_id == endpoint && ltb cursor d.id)) [
      | inl b ↦ rw b (h.0, after-Increasing endpoint cursor d.id ds h.1)
      | inr b ↦ rw b (
          Increasing-below c d.id (after endpoint cursor ds) (omega (arith, h.0))
            (after-Increasing endpoint cursor d.id ds h.1))
    ]

after-later :
    (endpoint c c' : ℕ) (rows : List ApiDelivery)
    → c ≤ c'
    → after endpoint c' rows ≡ keep (λ (d : ApiDelivery). ltb c' d.id) (after endpoint c rows)
after-later endpoint c c' [] le = refl
after-later endpoint c c' (d ∷ ds) le = ground (arith, after-later endpoint c c' ds le)

next_cursor-grows :
    (c n : ℕ) (ds : List ApiDelivery) → Increasing c ds → c ≤ next_cursor c (take n ds)
next_cursor-grows c zero ds h = omega arith
next_cursor-grows c (suc n) [] h = omega arith
next_cursor-grows c (suc n) (d ∷ ds) h = omega (arith, next_cursor-grows d.id n ds h.1, h.0)

keep-Increasing :
    (c : ℕ) (ds : List ApiDelivery)
    → Increasing c ds
    → keep (λ (d : ApiDelivery). ltb c d.id) ds ≡ ds
keep-Increasing c [] h = refl
keep-Increasing c (d ∷ ds) h =
    let past : ltb c d.id ≡ true = ground arith in
    rw past
      (ap (◌∷◌ d) (keep-Increasing c ds (Increasing-below c d.id ds (omega (arith, h.0)) h.1)))

-- What lies past the last id of a page is what the page leaves.
past_page :
    (c n : ℕ) (ds : List ApiDelivery)
    → Increasing c ds
    → keep (λ (d : ApiDelivery). ltb (next_cursor c (take n ds)) d.id) ds ≡ drop n ds
past_page c zero ds h = keep-Increasing c ds h
past_page c (suc n) [] h = refl
past_page c (suc n) (d ∷ ds) h =
    let before : ltb (next_cursor d.id (take n ds)) d.id ≡ false =
      ground (arith, next_cursor-grows d.id n ds h.1) in
    rw before (past_page d.id n ds h.1)

take-take : {A : Type 0} (n : ℕ) (xs : List A) → take n (take (suc n) xs) ≡ take n xs
take-take zero xs = refl
take-take (suc n) [] = refl
take-take (suc n) (x ∷ xs) = ap (◌∷◌ x) (take-take n xs)

after-above :
    (endpoint c a : ℕ) (rows : List ApiDelivery)
    → Increasing a rows
    → Increasing c (after endpoint c rows)
after-above endpoint c a [] h = tt
after-above endpoint c a (d ∷ ds) h =
    elim (Bool-cases (d.api_endpoint_id == endpoint && ltb c d.id)) [
      | inl b ↦
          let past : c < d.id = ground arith in rw b (past, after-Increasing endpoint c d.id ds h.1)
      | inr b ↦ rw b (after-above endpoint c d.id ds h.1)
    ]

empty_list : {A : Type 0} (xs : List A) → length xs ≤ 0 → [] ≡ xs
empty_list [] h = refl
empty_list (x ∷ xs) h = absurd (omega arith)

module _ (endpoint limit : ℕ) (rows : List ApiDelivery) (up : Increasing 0 rows) where
  selected : (c : ℕ) → Increasing c (after endpoint c rows)
  selected c = after-above endpoint c 0 rows up

  -- The rows past a page.
  rest_of :
      (c : ℕ)
      → after endpoint (next_cursor c (take limit (after endpoint c rows))) rows
        ≡ drop limit (after endpoint c rows)
  rest_of c =
      let ds = after endpoint c rows in
      after-later endpoint c (next_cursor c (take limit ds)) rows
        (next_cursor-grows c limit ds (selected c))
      ∙ past_page c limit ds (selected c)

  -- A client that follows the cursor gets every delivery of its endpoint past the first cursor,
  -- once and in order, if it may pull as many pages as there are deliveries.
  pub pull_pages-all :
      (fuel c : ℕ)
      → 1 ≤ limit
      → length (after endpoint c rows) ≤ fuel
      → pull_pages fuel endpoint c limit rows ≡ after endpoint c rows
  unfolding pull_pages pull
  pull_pages-all zero c one h = empty_list (after endpoint c rows) h
  pull_pages-all (suc fuel) c one h =
      let ds = after endpoint c rows in
      elim (Bool-cases (ltb limit (length (take (suc limit) ds)))) [
        | inl more ↦
            let long : limit < length ds = ground (arith, length-take (suc limit) ds) in
            let left : length (after endpoint (next_cursor c (take limit ds)) rows) ≤ fuel =
              rw (rest_of c) (omega (arith, length-drop limit ds)) in
            let rest = pull_pages-all fuel (next_cursor c (take limit ds)) one left in
            rw (more, take-take limit ds, rest, rest_of c) (take-append-drop limit ds)
        | inr done ↦
            let short : length ds ≤ limit = ground (arith, length-take (suc limit) ds) in
            rw (done, take-take limit ds) (take_all limit ds short)
      ]
