-- ===== src/Trace/Found.antt =====
-- What a query finds, whatever the order: as many rows as match, and none with a longer content.
use mathlib.Core.List.{Perm, foldr}
use mathlib.Core.List.Perm.{foldr-eq}
use mathlib.Core.Bool.{Bool-set}
use cfg_mgr.Base.{
  ℕ, zero, suc, ◌≡◌, ◌≢◌, refl, ◌∙◌, sym, ap, Bool, true, not, ◌&&◌, List, [], ◌∷◌, some, All,
  length, take, drop, get_elem?, get_or, leb, ◌==◌, arith, Bool-cases, inl, inr,
}
use cfg_mgr.Base.Text.{Text, IsCstr}
use cfg_mgr.Trace.Select.{Condition}
use cfg_mgr.Trace.Table.{selection, matches}

module _ {ℓ} {A : Type ℓ} where
  length-foldr : (xs : List A) → foldr (λ x n. suc n) 0 xs ≡ length xs
  length-foldr [] = refl
  length-foldr (x ∷ xs) = ap suc (length-foldr xs)

  pub Perm-length : (xs ys : List A) → Perm xs ys → length xs ≡ length ys
  Perm-length xs ys p =
      let whole : IsSet ℕ = hlevel in
      let count : A → ℕ → ℕ = λ x n. suc n in
      let same : foldr count 0 xs ≡ foldr count 0 ys = foldr-eq whole count (λ x y n. refl) p 0 in
      sym (length-foldr xs) ∙ same ∙ length-foldr ys

  -- A test on every element.
  abbrev pub every : (A → Bool) → List A → Bool
  every f xs = foldr (λ x b. f x && b) true xs

  every-Perm : (f : A → Bool) (xs ys : List A) → Perm xs ys → every f xs ≡ every f ys
  every-Perm f xs ys p = foldr-eq Bool-set (λ x b. f x && b) (λ x y b. ground arith) p true

  every-drop : (f : A → Bool) (n : ℕ) (xs : List A) → every f xs ≡ true → every f (drop n xs) ≡ true
  every-drop f zero xs h = h
  every-drop f (suc n) [] h = h
  every-drop f (suc n) (x ∷ xs) h = every-drop f n xs (ground (arith, h))

  every-take-get_elem? :
      (f : A → Bool) (n : ℕ) (xs : List A) (k : ℕ) (x : A)
      → every f xs ≡ true
      → get_elem? (take n xs) k ≡ some x
      → f x ≡ true
  every-take-get_elem? f zero xs k x h e = cc
  every-take-get_elem? f (suc n) [] k x h e = cc
  every-take-get_elem? f (suc n) (y ∷ ys) zero x h e =
      let same : y ≡ x = cc in ap f (sym same) ∙ ground (arith, h)
  every-take-get_elem? f (suc n) (y ∷ ys) (suc k) x h e =
      every-take-get_elem? f n ys k x (ground (arith, h)) e

-- A content of at most 59 characters, none of them NUL.
abbrev pub is_content : Text → Bool
is_content s = leb (length s) 59 && every (λ c. not (c == 0)) s

nonzero-All : (s : Text) → every (λ c. not (c == 0)) s ≡ true → All (λ c. c ≢ 0) s
nonzero-All [] h = tt
nonzero-All (c ∷ s) h = ((λ e. ground (arith, h, e)), nonzero-All s (ground (arith, h)))

is_content-IsCstr : (s : Text) → is_content s ≡ true → IsCstr 59 s
is_content-IsCstr s h = record {
  fits = ground (arith, h);
  chars = nonzero-All s (ground (arith, h));
}

abbrev pub has_content : List Text → Bool
has_content row = is_content (get_or row 3 [])

every-selection :
    (f : List Text → Bool) (c : Condition) (rows : List (List Text))
    → every f rows ≡ true
    → every f (selection c rows) ≡ true
every-selection f c [] h = refl
every-selection f c (row ∷ rows) h =
    let more = every-selection f c rows (ground (arith, h)) in
    elim (Bool-cases (matches c row)) [
      | inl fits ↦ rw fits (ground (arith, h, more))
      | inr other ↦ rw other more
    ]

-- Every row of a page of what has been found has such a content, if every row of the table has.
pub page-IsCstr :
    (c : Condition) (rows found : List (List Text)) (n start k : ℕ) (row : List Text)
    → every has_content rows ≡ true
    → Perm found (selection c rows)
    → get_elem? (take n (drop start found)) k ≡ some row
    → IsCstr 59 (get_or row 3 [])
page-IsCstr c rows found n start k row h p e =
    let all = every-Perm has_content found _ p ∙ every-selection has_content c rows h in
    is_content-IsCstr (get_or row 3 []) (
      every-take-get_elem? has_content n (drop start found) k row
        (every-drop has_content start found all) e)
