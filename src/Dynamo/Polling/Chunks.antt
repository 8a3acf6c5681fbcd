-- ===== src/Dynamo/Polling/Chunks.antt =====
-- How BatchGetItems splits its keys.
use rosa_hyperfleet_kube_app.Prelude.{
  ℕ, zero, suc, ◌≤◌, String, ◌≡◌, refl, ap, ◌∙◌, List, [], ◌∷◌, ◌++◌, length, take, drop, arith,
}
use rosa_hyperfleet_kube_app.Dynamo.Polling.{chunks_of, batch_get_max}

abbrev pub joined : List (List String) → List String
joined [] = []
joined (c ∷ cs) = c ++ joined cs

abbrev pub AllWithin : ℕ → List (List String) → Type 0
AllWithin n [] = Unit {0}
AllWithin n (c ∷ cs) = (length c ≤ n) × AllWithin n cs

length-take-le {ℓ} : {A : Type ℓ} (n : ℕ) (xs : List A) → length (take n xs) ≤ n
length-take-le zero xs = omega arith
length-take-le (suc n) [] = omega arith
length-take-le (suc n) (x ∷ xs) = omega (arith, length-take-le n xs)

length-drop-le {ℓ} : {A : Type ℓ} (n : ℕ) (xs : List A) → length (drop n xs) ≤ length xs
length-drop-le zero xs = omega arith
length-drop-le (suc n) [] = omega arith
length-drop-le (suc n) (x ∷ xs) = omega (arith, length-drop-le n xs)

take-append-drop {ℓ} : {A : Type ℓ} (n : ℕ) (xs : List A) → take n xs ++ drop n xs ≡ xs
take-append-drop zero xs = refl
take-append-drop (suc n) [] = refl
take-append-drop (suc n) (x ∷ xs) = ap (◌∷◌ x) (take-append-drop n xs)

chunks_cover :
    (rounds : ℕ) (ids : List String)
    → length ids ≤ rounds
    → (joined (chunks_of rounds ids) ≡ ids) × AllWithin batch_get_max (chunks_of rounds ids)
unfolding chunks_of
chunks_cover rounds [] h = (refl, tt)
chunks_cover zero (k ∷ ks) h = absurd (omega arith)
chunks_cover (suc rounds) (k ∷ ks) h =
    let (covered, within) =
      chunks_cover rounds (drop 99 ks) (omega (arith, length-drop-le 99 ks, h)) in
    (
      ap (◌∷◌ k) (ap (λ r. take 99 ks ++ r) covered ∙ take-append-drop 99 ks),
      (omega (arith, length-take-le 99 ks), within),
    )

-- The requests of BatchGetItems are the document IDs in order, each once as often as given, and no
-- request has more than 100 keys, the limit of the service.
pub chunks_complete :
    (ids : List String)
    → (joined (chunks_of (length ids) ids) ≡ ids) × AllWithin 100 (chunks_of (length ids) ids)
chunks_complete ids = chunks_cover (length ids) ids (omega arith)
