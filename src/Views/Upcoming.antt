-- ===== src/Views/Upcoming.antt =====
-- The pages of the queue message (src/views.rs) show every upcoming track once, in order.
use raydio.Prelude.{
  ℕ, zero, suc, ◌+◌, ◌*◌, ◌≤◌, ◌≡◌, refl, sym, ap, ◌∙◌, List, [], ◌∷◌, ◌++◌, Text, arith, length,
  take, drop,
}
use raydio.Playback.{Track}
use raydio.Views.Pages.{entries_from, page_count, page_entries}

-- The pages from one on, one after the other.
unfoldable pub pages_from : ℕ → ℕ → List Track → List Text
pages_from page zero ts = []
pages_from page (suc more) ts = page_entries page ts ++ pages_from (page + 1) more ts

module _ {A : Type 0} where
  take-drop : (n : ℕ) (xs : List A) → take n xs ++ drop n xs ≡ xs
  take-drop zero xs = refl
  take-drop (suc n) [] = refl
  take-drop (suc n) (x ∷ xs) = ap (◌∷◌ x) (take-drop n xs)

  drop_nil : (n : ℕ) → ◌≡◌ {A = List A} (drop n []) []
  drop_nil zero = refl
  drop_nil (suc n) = refl

  drop-add : (m n : ℕ) (xs : List A) → drop n (drop m xs) ≡ drop (m + n) xs
  drop-add zero n xs = ap (λ k. drop k xs) (omega arith)
  drop-add (suc m) n [] = drop_nil n ∙ sym (drop_nil (suc m + n))
  drop-add (suc m) n (x ∷ xs) =
      let same : suc (m + n) ≡ suc m + n = omega arith in
      drop-add m n xs ∙ ap (λ k. drop k (x ∷ xs)) same

  drop_all : (n : ℕ) (xs : List A) → length xs ≤ n → drop n xs ≡ []
  drop_all zero [] h = refl
  drop_all zero (x ∷ xs) h = absurd (omega arith)
  drop_all (suc n) [] h = refl
  drop_all (suc n) (x ∷ xs) h = drop_all n xs (omega arith)

length-entries_from : (i : ℕ) (ts : List Track) → length (entries_from i ts) ≡ length ts
unfolding entries_from
length-entries_from i [] = refl
length-entries_from i (t ∷ ts) = omega (arith, length-entries_from (i + 1) ts)

pages_from-drop :
    (page more : ℕ) (ts : List Track)
    → length ts ≤ (page + more) * 10
    → pages_from page more ts ≡ drop (page * 10) (entries_from 0 ts)
unfolding pages_from page_entries
pages_from-drop page zero ts h =
    sym (drop_all (page * 10) (entries_from 0 ts) (omega (arith, length-entries_from 0 ts)))
pages_from-drop page (suc more) ts h =
    ap (λ r. page_entries page ts ++ r)
      (pages_from-drop (page + 1) more ts (omega arith)
        ∙ ap (λ n. drop n (entries_from 0 ts)) (omega arith)
        ∙ sym (drop-add (page * 10) 10 (entries_from 0 ts)))
    ∙ take-drop 10 (drop (page * 10) (entries_from 0 ts))

-- The pages of a queue, from the first to the last that `queue` counts, hold the numbered line of
-- every upcoming track once, in the order of the queue.
pub pages_cover : (ts : List Track) → pages_from 0 (page_count (length ts)) ts ≡ entries_from 0 ts
unfolding page_count
pages_cover ts = pages_from-drop 0 (page_count (length ts)) ts (ground arith)
