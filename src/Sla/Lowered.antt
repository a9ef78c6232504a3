-- ===== src/Sla/Lowered.antt =====
-- Lower-casing a severity twice, as `calculate` does through `get_config_for_severity`
-- (app/services/sla), is lower-casing it once.
use Prim.Native.Char.{Char, code}
use apex_chainx_backend.Common.{
  ℕ, zero, suc, ◌-◌, ◌<◌, ◌≡◌, refl, ap, ap₂, ◌∙◌, inl, inr, String, Bool, true, false, not, ◌&&◌,
  Bool-cases, arith, ◌==◌,
}
use apex_chainx_backend.Sla.{is_upper, lower_letter, lower_char, lower}

-- None of the first n letters of the table is an upper-case one.
lowers_upto : ℕ → Bool
lowers_upto zero = true
lowers_upto (suc k) = lowers_upto k && not (is_upper (lower_letter k))

not_upper_in : (k m : ℕ) → m < k → lowers_upto k ≡ true → not (is_upper (lower_letter m)) ≡ true
unfolding lowers_upto
not_upper_in zero m h table = absurd (omega arith)
not_upper_in (suc k) m h table = elim (Bool-cases (m == k)) [
  | inl last ↦
      let e : m ≡ k = ground arith in ap (λ i. not (is_upper (lower_letter i))) e ∙ ground arith
  | inr before ↦ not_upper_in k m (ground arith) (ground arith)
]

not_upper : (n : ℕ) → n < 26 → not (is_upper (lower_letter n)) ≡ true
unfolding lowers_upto
not_upper n h = not_upper_in 26 n h refl

upper_bound : (c : Char) → is_upper c ≡ true → code c - b'A' < 26
upper_bound c h = ground arith

not-true : (b : Bool) → not b ≡ true → b ≡ false
not-true true h = cc
not-true false h = refl

lower_char_low : (c : Char) → is_upper c ≡ false → lower_char c ≡ c
lower_char_low c h = rw h

lower_char_up : (c : Char) → is_upper c ≡ true → lower_char c ≡ lower_letter (code c - b'A')
lower_char_up c h = rw h

lower_char_idem : (c : Char) → lower_char (lower_char c) ≡ lower_char c
lower_char_idem c = elim (Bool-cases (is_upper c)) [
  | inl up ↦
      lower_char_low (lower_char c) (
        ap is_upper (lower_char_up c up)
        ∙ not-true _ (not_upper (code c - b'A') (upper_bound c up)))
  | inr low ↦ ap lower_char (lower_char_low c low)
]

pub lower_idem : (s : String) → lower (lower s) ≡ lower s
unfolding lower
lower_idem String.[] = refl
lower_idem (String.◌∷◌ c s) = ap₂ String.◌∷◌ (lower_char_idem c) (lower_idem s)
