-- ===== src/Domain/Criteria/Increasing.antt =====
-- Lists of texts that increase: what is inserted in order increases, and the elements say what it is.
use jobscout.Prelude.{
  ◌≡◌, refl, sym, ◌∙◌, inl, inr, true, false, ◌||◌, List, [], ◌∷◌, arith, All, Bool-cases,
}
use jobscout.Text.{Text, ◌==◌}
use jobscout.Text.Equality.{eq_iff, eq_refl}
use jobscout.Text.Order.{
  leb_text, insert_text, sort_texts, leb_text_total, leb_text_antisym, leb_text_trans,
}
use jobscout.Domain.Unique.{seen_in}

-- s < t
abbrev pub Below : Text → Text → Type 0
Below s t = leb_text t s ≡ false

abbrev pub IsIncreasing : List Text → Type 0
IsIncreasing [] = Unit {0}
IsIncreasing (s ∷ ss) = All (Below s) ss × IsIncreasing ss

leb_text_refl : (s : Text) → leb_text s s ≡ true
unfolding leb_text
leb_text_refl [] = refl
leb_text_refl (c ∷ s) = ground (arith, leb_text_refl s)

Below-of_ne : (s t : Text) → leb_text s t ≡ true → (t == s) ≡ false → Below s t
Below-of_ne s t h k = ground (arith, leb_text_antisym s t, eq_refl t)

Below-trans : (s t u : Text) → Below s t → Below t u → Below s u
Below-trans s t u h k =
    ground
      (arith, leb_text_trans t u s, leb_text_total u t, leb_text_total t s, leb_text_trans u s t)

insert_text-All :
    (P : Text → Type 0) (x : Text) (ys : List Text) → P x → All P ys → All P (insert_text x ys)
unfolding insert_text
insert_text-All P x [] p h = (p, tt)
insert_text-All P x (y ∷ ys) p (q, h) = elim (Bool-cases (leb_text x y)) [
  | inl e ↦ rw e (p, (q, h))
  | inr e ↦ rw e (q, insert_text-All P x ys p h)
]

All-Below : (s t : Text) (us : List Text) → Below s t → All (Below t) us → All (Below s) us
All-Below s t [] h k = tt
All-Below s t (u ∷ us) h (k, r) = (Below-trans s t u h k, All-Below s t us h r)

pub insert_text-IsIncreasing :
    (x : Text) (ys : List Text)
    → IsIncreasing ys
    → seen_in x ys ≡ false
    → IsIncreasing (insert_text x ys)
unfolding insert_text seen_in
insert_text-IsIncreasing x [] h n = (tt, tt)
insert_text-IsIncreasing x (y ∷ ys) (b, h) n = elim (Bool-cases (leb_text x y)) [
  | inl e ↦
      let before : Below x y = Below-of_ne x y e (ground arith) in
      rw e ((before, All-Below x y ys before b), (b, h))
  | inr e ↦
      rw e (insert_text-All (Below y) x ys e b, insert_text-IsIncreasing x ys h (ground arith))
]

seen_in-insert_text :
    (v x : Text) (ys : List Text) → seen_in v (insert_text x ys) ≡ (x == v || seen_in v ys)
unfolding insert_text seen_in
seen_in-insert_text v x [] = refl
seen_in-insert_text v x (y ∷ ys) = ground (arith, seen_in-insert_text v x ys)

pub seen_in-sort_texts : (v : Text) (xs : List Text) → seen_in v (sort_texts xs) ≡ seen_in v xs
unfolding sort_texts seen_in
seen_in-sort_texts v [] = refl
seen_in-sort_texts v (x ∷ xs) =
    ground (arith, seen_in-insert_text v x (sort_texts xs), seen_in-sort_texts v xs)

-- Nothing in an increasing list comes before its first element.
not-seen_in :
    (v x : Text) (xs : List Text) → leb_text v x ≡ true → All (Below x) xs → seen_in v xs ≡ false
unfolding seen_in
not-seen_in v x [] h k = refl
not-seen_in v x (y ∷ ys) h (b, k) =
    ground (arith, eq_iff y v, leb_text_trans y v x, not-seen_in v x ys h k)

head-leb :
    (v x : Text) (xs : List Text)
    → All (Below x) xs
    → seen_in v (x ∷ xs) ≡ true
    → leb_text x v ≡ true
unfolding seen_in
head-leb v x xs b h = elim (Bool-cases (leb_text x v)) [
  | inl e ↦ e
  | inr e ↦
      ground (arith, e, h, eq_iff x v, leb_text_refl x, not-seen_in v x xs (leb_text_total x v e) b)
]

absent : {v : Text} (xs : List Text) (x : Text) → All (Below x) xs → x ≡ v → seen_in v xs ≡ false
absent {v} xs x b e = not-seen_in v x xs (rw e (leb_text_refl v)) b

-- Two increasing lists with the same elements are equal.
pub IsIncreasing-unique :
    (xs ys : List Text)
    → IsIncreasing xs
    → IsIncreasing ys
    → ((v : Text) → seen_in v xs ≡ seen_in v ys)
    → xs ≡ ys
unfolding seen_in
IsIncreasing-unique [] [] h k e = refl
IsIncreasing-unique [] (y ∷ ys) h k e = ground (arith, e y, eq_refl y)
IsIncreasing-unique (x ∷ xs) [] h k e = ground (arith, e x, eq_refl x)
IsIncreasing-unique (x ∷ xs) (y ∷ ys) (b, h) (d, k) e =
    cc (same, IsIncreasing-unique xs ys h k tails)
  where
    same : x ≡ y
    same =
        leb_text_antisym x y (head-leb y x xs b (e y ∙ ground (arith, eq_refl y)))
          (head-leb x y ys d (sym (e x) ∙ ground (arith, eq_refl x)))

    is_head : {v : Text} → (x == v) ≡ true → x ≡ v
    is_head {v} t = (eq_iff x v).0 t

    tails : (v : Text) → seen_in v xs ≡ seen_in v ys
    tails v = elim (Bool-cases (x == v)) [
      | inl t ↦ absent xs x b (is_head t) ∙ sym (absent ys y d (sym same ∙ is_head t))
      | inr f ↦ ground (arith, same, e v)
    ]
