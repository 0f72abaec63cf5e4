-- ===== src/Text/Substrings.antt =====
-- strings.Contains finds a text exactly where it is a part, and strings.Map goes over parts.
use text.Mathlib.TextLemmas.{nil-append, cons-append}
use text.Mathlib.TextEquality.{Char-path}
use vanitykeygen.Common.{
  ℕ, String, Char, code, true, eqb, ◌≡◌, refl, sym, ap, ◌∙◌, arith, inl, inr, Bool-cases,
}
use vanitykeygen.Text.{append, has_prefix, contains, map_runes}

-- The text `part` stands in `text`, between two others.
pub record Stands (part text : String) : Type 0 where
  pub before : String
  pub after : String
  pub whole : text ≡ append before (append part after)

eqb_self : (n : ℕ) → eqb n n ≡ true
eqb_self n = ground arith

has_prefix-append : (t b : String) → has_prefix (append t b) t ≡ true
unfolding has_prefix
has_prefix-append String.[] b = nil_prefix (append "" b)
  where
    nil_prefix : (s : String) → has_prefix s "" ≡ true
    nil_prefix String.[] = refl
    nil_prefix (String.◌∷◌ c s) = refl
has_prefix-append (String.◌∷◌ c t) b =
    rw (cons-append, has_prefix) (rw (eqb_self, has_prefix-append t b) refl)

contains_of_prefix : (s t : String) → has_prefix s t ≡ true → contains s t ≡ true
unfolding contains
contains_of_prefix String.[] t h = h
contains_of_prefix (String.◌∷◌ c s) t h = rw (contains, h) refl

pub contains-append : (a t b : String) → contains (append a (append t b)) t ≡ true
unfolding contains
contains-append String.[] t b =
    rw nil-append (contains_of_prefix (append t b) t (has_prefix-append t b))
contains-append (String.◌∷◌ c a) t b =
    rw (cons-append, contains) (ground (arith, contains-append a t b))

prefix_rest : (s t : String) → has_prefix s t ≡ true → (b : String) × (s ≡ append t b)
unfolding has_prefix
prefix_rest s String.[] h = (s, sym (nil-append s))
prefix_rest String.[] (String.◌∷◌ d t) h = cc
prefix_rest (String.◌∷◌ c s) (String.◌∷◌ d t) h =
    let (b, rest) = prefix_rest s t (ground (arith, h)) in
    let same : code c ≡ code d = ground (arith, h) in
    (
      b,
      ap (λ x. String.◌∷◌ x s) (Char-path c d same)
          ∙ ap (String.◌∷◌ d) rest
          ∙ sym (cons-append d t b),
    )

prefix-Stands : (s t : String) → has_prefix s t ≡ true → Stands t s
prefix-Stands s t h =
    let (b, rest) = prefix_rest s t h in
    record { before = ""; after = b; whole = rest ∙ sym (nil-append (append t b)) }

pub contains-Stands : (s t : String) → contains s t ≡ true → Stands t s
unfolding contains
contains-Stands String.[] t h = prefix-Stands "" t h
contains-Stands (String.◌∷◌ c s) t h = elim (Bool-cases (has_prefix (String.◌∷◌ c s) t)) [
  | inl first ↦ prefix-Stands (String.◌∷◌ c s) t first
  | inr later ↦
      let found = contains-Stands s t (ground (arith, h, later)) in
      record {
        before = String.◌∷◌ c found.before;
        after = found.after;
        whole =
            ap (String.◌∷◌ c) found.whole ∙ sym (cons-append c found.before (append t found.after));
      }
]

pub Stands-contains : (s t : String) → Stands t s → contains s t ≡ true
Stands-contains s t found = rw found.whole (contains-append found.before t found.after)

map_runes-append :
    (f : Char → Char) (s t : String)
    → map_runes f (append s t) ≡ append (map_runes f s) (map_runes f t)
unfolding map_runes
map_runes-append f String.[] t = ap (map_runes f) (nil-append t) ∙ sym (nil-append (map_runes f t))
map_runes-append f (String.◌∷◌ c s) t =
    rw (cons-append, map_runes) (rw (cons-append, map_runes-append f s t) refl)

pub Stands-map_runes :
    (f : Char → Char) (s t : String) → Stands t s → Stands (map_runes f t) (map_runes f s)
Stands-map_runes f s t found = record {
  before = map_runes f found.before;
  after = map_runes f found.after;
  whole =
      ap (map_runes f) found.whole
      ∙ map_runes-append f found.before (append t found.after)
      ∙ ap (append (map_runes f found.before)) (map_runes-append f t found.after);
}
