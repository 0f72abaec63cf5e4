-- ===== src/Vkg/Id.antt =====
-- pkg/vkg/vkg.go, the text of NewID: `fmt.Sprintf("%x", b)`.
use Prim.Native.String.{count}
use text.Mathlib.TextLemmas.{
  length-nil, length-cons, head-eq_of_cons-eq, tail-eq_of_cons-eq, nil≢cons,
}
use vanitykeygen.Common.{
  ℕ, ◌-◌, sym, ◌*◌, ◌/◌, ◌%◌, ◌<◌, ◌≡◌, refl, ap, ◌∙◌, true, List, [], ◌∷◌, Char, code, String,
  arith, length, leb, eqb, holds_below, holds_below_sound, if◌then◌else◌, All,
}

-- the hexadecimal digit of a number below 16, lower case
pub digit : ℕ → Char
digit n =
    if leb n 0
    then "0"
    else if leb n 1
    then "1"
    else if leb n 2
    then "2"
    else if leb n 3
    then "3"
    else if leb n 4
    then "4"
    else if leb n 5
    then "5"
    else if leb n 6
    then "6"
    else if leb n 7
    then "7"
    else if leb n 8
    then "8"
    else if leb n 9
    then "9"
    else if leb n 10
    then "a"
    else if leb n 11
    then "b"
    else if leb n 12
    then "c"
    else if leb n 13
    then "d"
    else if leb n 14
    then "e"
    else "f"

-- `%x` of a byte slice: two digits for each byte
unfoldable pub hex : List ℕ → String
unfolding digit
hex [] = String.[]
hex (b ∷ bs) = String.◌∷◌ (digit (b / 16)) (String.◌∷◌ (digit (b % 16)) (hex bs))

hex_test : hex (0 ∷ 255 ∷ 26 ∷ []) ≡ "00ff1a"
unfolding hex
hex_test = refl

-- Two characters for each byte.
pub count-hex : (bs : List ℕ) → count (hex bs) ≡ 2 * length bs
unfolding hex
count-hex [] = length-nil
count-hex (b ∷ bs) = rw (length-cons, length-cons) (omega (arith, count-hex bs))

-- the value of a digit, by its character
digit_value : Char → ℕ
digit_value c = if leb (code c) 57 then code c - 48 else code c - 87

digits_table : holds_below (λ d. eqb (digit_value (digit d)) d) 16 ≡ true
unfolding holds_below digit digit_value
digits_table = refl

eqb→eq : (a b : ℕ) → eqb a b ≡ true → a ≡ b
eqb→eq a b h = ground arith

digit_value-digit : (n : ℕ) → n < 16 → digit_value (digit n) ≡ n
digit_value-digit n h =
    eqb→eq _ _ (holds_below_sound (λ d. eqb (digit_value (digit d)) d) 16 n h digits_table)

digit_injective : (m n : ℕ) → m < 16 → n < 16 → digit m ≡ digit n → m ≡ n
digit_injective m n hm hn e =
    sym (digit_value-digit m hm) ∙ ap digit_value e ∙ digit_value-digit n hn

abbrev pub IsByte : ℕ → Type 0
IsByte b = b < 256

-- Different byte strings have different hexadecimal texts.
pub hex_injective : (bs cs : List ℕ) → All IsByte bs → All IsByte cs → hex bs ≡ hex cs → bs ≡ cs
unfolding hex
hex_injective [] [] _ _ e = refl
hex_injective [] (c ∷ cs) _ _ e = absurd (nil≢cons e)
hex_injective (b ∷ bs) [] _ _ e = absurd (nil≢cons (sym e))
hex_injective (b ∷ bs) (c ∷ cs) (hb, hbs) (hc, hcs) e =
    let tails = tail-eq_of_cons-eq e in
    let high =
      digit_injective (b / 16) (c / 16) (omega arith) (omega arith) (head-eq_of_cons-eq e) in
    let low =
      digit_injective (b % 16) (c % 16) (omega arith) (omega arith) (head-eq_of_cons-eq tails) in
    let same : b ≡ c = omega arith in
    let rest = hex_injective bs cs hbs hcs (tail-eq_of_cons-eq tails) in cc
