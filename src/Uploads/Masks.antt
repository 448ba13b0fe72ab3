-- ===== src/Uploads/Masks.antt =====
-- `&` with a mask of high bits, as a division.
use native.Mathlib.Nat.{pow-suc, one-le-pow, div-div-eq-div-mul, mul-div_left}
use sdcorejs_nestjs.Base.{
  Bool-cases, ==_iff, inl, inr, ℕ, zero, suc, ◌≡◌, refl, ap, ◌∙◌, sym, ◌+◌, ◌*◌, ◌/◌, ◌^◌, ◌≤◌, ◌<◌,
  arith, ◌==◌,
}
use sdcorejs_nestjs.Uploads.Address.{and_bits, mask_of, in_ipv4_range}

-- A mask of ones keeps a number of its width.
and_bits-ones : (n a m : ℕ) → m + 1 ≡ 2 ^ n → a < 2 ^ n → and_bits n a m ≡ a
unfolding and_bits
and_bits-ones zero a m e h = omega arith
and_bits-ones (suc n) a m e h =
    let wide = pow-suc 2 n in
    ground (arith, and_bits-ones n (a / 2) (m / 2) (omega arith) (omega arith))

-- A mask that ends in k zeros clears the k lowest digits.
and_bits-shifted :
    (k n a m w x y : ℕ)
    → w ≡ k + n
    → x ≡ m * 2 ^ k
    → y ≡ a / 2 ^ k
    → and_bits w a x ≡ and_bits n y m * 2 ^ k
unfolding and_bits
and_bits-shifted zero n a m w x y ew ex ey =
    let same : w ≡ n = omega (arith, ew) in
    let mask : x ≡ m = omega (arith, ex) in
    let high : y ≡ a = omega (arith, ey) in rw (same, mask, high) (omega arith)
and_bits-shifted (suc k) n a m zero x y ew ex ey = absurd (omega (arith, ew))
and_bits-shifted (suc k) n a m (suc w) x y ew ex ey =
    let double = pow-suc 2 k in
    let even : m * 2 ^ suc k ≡ 2 * (m * 2 ^ k) = omega (arith, ap (λ (t : ℕ). m * t) double) in
    let quotient : y ≡ a / 2 / 2 ^ k =
      ey ∙ ap (λ (t : ℕ). a / t) (omega (arith, double)) ∙ sym (div-div-eq-div-mul a 2 (2 ^ k)) in
    let rest = and_bits-shifted k n (a / 2) m w (x / 2) y (omega arith) (omega arith) quotient in
    let scaled = ap (λ (t : ℕ). and_bits n y m * t) double in ground (arith, rest, even, scaled)

==-scaled : (a b s : ℕ) → 1 ≤ s → (a * s == b * s) ≡ (a == b)
==-scaled a b s h = elim (Bool-cases (a * s == b * s)) [
  | inl e ↦
      let same : a * s ≡ b * s = (==_iff (a * s) (b * s)).0 e in
      let unscaled : a ≡ b =
        sym (mul-div_left a h) ∙ ap (λ (t : ℕ). t / s) same ∙ mul-div_left b h in
      ground arith
  | inr e ↦ elim (Bool-cases (a == b)) [
    | inl f ↦
        let same : a ≡ b = (==_iff a b).0 f in
        let scaled : a * s ≡ b * s = ap (λ (t : ℕ). t * s) same in ground arith
    | inr f ↦ ground arith
  ]
]

-- A number of 32 bits lies in a range exactly if it has the range's leading digits.
pub in_ipv4_range_lem :
    (p k value base m : ℕ)
    → p + k ≡ 32
    → mask_of p ≡ m * 2 ^ k
    → m + 1 ≡ 2 ^ p
    → value / 2 ^ k < 2 ^ p
    → base / 2 ^ k < 2 ^ p
    → in_ipv4_range value base p ≡ (value / 2 ^ k == base / 2 ^ k)
unfolding in_ipv4_range
in_ipv4_range_lem p k value base m e masked ones hv hb =
    let first =
      and_bits-shifted k p value m 32 (mask_of p) (value / 2 ^ k) (omega arith) masked refl in
    let second =
      and_bits-shifted k p base m 32 (mask_of p) (base / 2 ^ k) (omega arith) masked refl in
    let v = and_bits-ones p (value / 2 ^ k) m ones hv in
    let b = and_bits-ones p (base / 2 ^ k) m ones hb in
    let scale = one-le-pow k 2 (omega arith) in
    rw (first, second, v, b) (==-scaled (value / 2 ^ k) (base / 2 ^ k) (2 ^ k) scale)
