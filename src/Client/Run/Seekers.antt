-- ===== src/Client/Run/Seekers.antt =====
-- pkg/client/main.go: which seekers Run launches, and when the channel of their statuses cannot be made.
use mathlib.Core.List.{Memᴰ}
use mathlib.Core.List.Memᴰ
use vanitykeygen.Common.{
  ℕ, zero, suc, ◌*◌, ◌^◌, ◌≤◌, ◌<◌, ℤ, pos, negsuc, true, false, List, [], ◌∷◌, length,
  length-append, ◌≡◌, refl, ◌∙◌, ◌↔◌, arith, inl, inr, ◌⊎◌,
}
use vanitykeygen.Client.Run.{up_to, seeker_ids, makes_channel}

-- The seekers that are launched for this setting: one for each number from 1 to it. None is negative,
-- but one so small that twice the number wraps to one that is not.
pub record IsLaunched (most : ℕ) (seekers : ℤ) (ids : List ℕ) : Type 0 where
  pub fits : (n : ℕ) → seekers ≡ pos n → n < 2 ^ 63 → (n * 2 < 2 ^ 63) × (n * 2 ≤ most)
  pub number : (n : ℕ) → seekers ≡ pos n → length ids ≡ n
  pub each : (n i : ℕ) → seekers ≡ pos n → Memᴰ i ids ↔ ((0 < i) × (i ≤ n))
  pub wraps : (n : ℕ) → seekers ≡ negsuc n → (2 ^ 62 ≤ n) × (ids ≡ [])

-- Where no channel is made: the number is negative, or twice it is too large.
abbrev pub IsRefused : ℕ → ℤ → Type 0
IsRefused most (pos n) = n < 2 ^ 63 → n * 2 < 2 ^ 63 → most < n * 2
IsRefused most (negsuc n) = Unit

length-up_to : (n : ℕ) → length (up_to n) ≡ n
unfolding up_to
length-up_to zero = refl
length-up_to (suc n) = omega (arith, length-append (up_to n) (suc n ∷ []), length-up_to n)

in_up_to : (n i : ℕ) → Memᴰ i (up_to n) → (0 < i) × (i ≤ n)
unfolding up_to
in_up_to zero i mem = absurd (Memᴰ.not-nil mem)
in_up_to (suc n) i mem = elim (Memᴰ.append_cases (up_to n) mem) [
  | inl before ↦ let (a, b) = in_up_to n i before in (a, omega (arith, b))
  | inr last ↦
      let same : i ≡ suc n = Memᴰ.eq_of_singleton last in (omega (arith, same), omega (arith, same))
]

split_top : (n i : ℕ) → i ≤ suc n → (i ≤ n) ⊎ (i ≡ suc n)
split_top n i h = ground arith

up_to_in : (n i : ℕ) → 0 < i → i ≤ n → Memᴰ i (up_to n)
unfolding up_to
up_to_in zero i low high = absurd (omega arith)
up_to_in (suc n) i low high = elim (split_top n i high) [
  | inl below ↦ Memᴰ.append_left (suc n ∷ []) (up_to_in n i low below)
  | inr top ↦ Memᴰ.append_right (up_to n) (Memᴰ.head top)
]

numbers : (m n : ℕ) → ◌≡◌ {A = ℤ} (pos m) (pos n) → m ≡ n
numbers m n e = cc

negatives : (m n : ℕ) → ◌≡◌ {A = ℤ} (negsuc m) (negsuc n) → m ≡ n
negatives m n e = cc

fits_pos :
    (most n : ℕ)
    → makes_channel most (pos n) ≡ true
    → n < 2 ^ 63
    → (n * 2 < 2 ^ 63) × (n * 2 ≤ most)
unfolding makes_channel
fits_pos most n h small = (ground (arith, h), ground (arith, h))

wraps_negsuc : (most n : ℕ) → makes_channel most (negsuc n) ≡ true → 2 ^ 62 ≤ n
unfolding makes_channel
wraps_negsuc most n h = ground (arith, h)

pub makes_channel-IsLaunched :
    (most : ℕ) (seekers : ℤ)
    → makes_channel most seekers ≡ true
    → IsLaunched most seekers (seeker_ids seekers)
unfolding seeker_ids
makes_channel-IsLaunched most (pos m) h = record {
  fits = λ n e. (let same = numbers m n e in rw (← same) (fits_pos most m h));
  number = λ n e. length-up_to m ∙ numbers m n e;
  each = λ n i e.
      let same = numbers m n e in
      rw (← same) (in_up_to m i, λ bounds. up_to_in m i bounds.0 bounds.1);
  wraps = λ n e. cc;
}
makes_channel-IsLaunched most (negsuc m) h = record {
  fits = λ n e. cc;
  number = λ n e. cc;
  each = λ n i e. cc;
  wraps = λ n e. (let same = negatives m n e in rw (← same) (wraps_negsuc most m h, refl));
}

pub makes_channel-IsRefused :
    (most : ℕ) (seekers : ℤ) → makes_channel most seekers ≡ false → IsRefused most seekers
unfolding makes_channel
makes_channel-IsRefused most (pos n) h = λ small half. ground (arith, h)
makes_channel-IsRefused most (negsuc n) h = tt
