-- ===== src/Text/Laws.antt =====
-- Splitting at a character gives back the pieces that were joined with it.
use text.Mathlib.TextLemmas.{nil-append, cons-append, append-nil}
use vanitykeygen.Common.{
  ℕ, String, Char, code, true, false, List, [], ◌∷◌, eqb, ◌≡◌, refl, sym, ap, ◌∙◌, ◌≢◌, arith, All,
}
use vanitykeygen.Text.{append, join, cons_first, split}

-- The character with this code does not stand in the text.
abbrev pub Lacks : ℕ → String → Type 0
Lacks sep String.[] = Unit
Lacks sep (String.◌∷◌ c s) = (eqb (code c) sep ≡ false) × Lacks sep s

abbrev prepend : String → List String → List String
prepend s [] = s ∷ []
prepend s (p ∷ ps) = append s p ∷ ps

prepend_cons :
    (c : Char) (s : String) (ps : List String)
    → cons_first c (prepend s ps) ≡ prepend (String.◌∷◌ c s) ps
prepend_cons c s [] = refl
prepend_cons c s (p ∷ ps) = rw cons-append

prepend_nil : (ps : List String) → ps ≢ [] → prepend "" ps ≡ ps
prepend_nil [] h = absurd (h refl)
prepend_nil (p ∷ ps) h = rw nil-append

split-ne-nil : (sep : ℕ) (s : String) → split sep s ≢ []
unfolding split
split-ne-nil sep String.[] = cc
split-ne-nil sep (String.◌∷◌ c s) = ground arith

split-append :
    (sep : ℕ) (s t : String) → Lacks sep s → split sep (append s t) ≡ prepend s (split sep t)
unfolding split
split-append sep String.[] t h =
    ap (split sep) (nil-append t) ∙ sym (prepend_nil (split sep t) (split-ne-nil sep t))
split-append sep (String.◌∷◌ c s) t (h, hs) =
    rw (cons-append, split) (rw (h, split-append sep s t hs) (prepend_cons c s (split sep t)))

split_one : (d : Char) (s : String) → Lacks (code d) s → split (code d) s ≡ s ∷ []
unfolding split
split_one d String.[] h = refl
split_one d (String.◌∷◌ c s) (h, hs) = rw (h, split_one d s hs)

eqb_refl : (n : ℕ) → eqb n n ≡ true
eqb_refl n = ground arith

split_at :
    (d : Char) (t : String) → split (code d) (append (String.◌∷◌ d "") t) ≡ "" ∷ split (code d) t
unfolding split
split_at d t = rw (cons-append, nil-append, split) (rw eqb_refl)

-- strings.Split gives back what strings.Join joined, if there is a piece and none holds the separator.
pub split-join :
    (d : Char) (ss : List String)
    → ss ≢ []
    → All (Lacks (code d)) ss
    → split (code d) (join (String.◌∷◌ d "") ss) ≡ ss
unfolding join
split-join d [] h lacks = absurd (h refl)
split-join d (s ∷ []) h (l, _) = split_one d s l
split-join d (s ∷ t ∷ rest) h (l, ls) =
    split-append (code d) s (append (String.◌∷◌ d "") (join (String.◌∷◌ d "") (t ∷ rest))) l
    ∙ rw (split_at, append-nil) (ap (λ ps. s ∷ ps) (split-join d (t ∷ rest) (cc) ls))
