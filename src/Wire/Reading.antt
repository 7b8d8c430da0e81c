-- ===== src/Wire/Reading.antt =====
-- What holds of every reader of codec.rs on any bytes, well formed or not.
pub mod Bodies
pub mod Fields
use lan_mouse_pro.Common.{
  ℕ, zero, suc, ◌+◌, ◌<◌, ◌≤◌, ◌≡◌, refl, ap, ◌⊎◌, inl, inr, arith, List, [], ◌∷◌, ◌++◌, length,
  Bool-cases,
}
use lan_mouse_pro.Wire.Outcome.{
  Outcome, ok, err, frame_too_short, Reader, ◌>>=◌, bind_inversion, ok-injective,
}

-- The reader succeeds or answers `FrameTooShort` (it does not panic), takes at least `k` bytes, and
-- does not look past them: bytes added behind the input join the rest.
pub record IsReader {ℓ} {T : Type ℓ} (k : ℕ) (read : Reader T) : Type ℓ where
  pub total :
      (bs : List ℕ) → ((p : T × List ℕ) × (read bs ≡ ok p)) ⊎ (read bs ≡ err frame_too_short)
  pub extends :
      (bs more : List ℕ) (p : T × List ℕ)
      → read bs ≡ ok p
      → read (bs ++ more) ≡ ok (p.0, p.1 ++ more)
  pub consumes : (bs : List ℕ) (p : T × List ℕ) → read bs ≡ ok p → length p.1 + k ≤ length bs

pub IsReader-pure {ℓ} : {T : Type ℓ} (a : T) → IsReader 0 (λ bs. ok (a, bs))
IsReader-pure a = record {
  total = λ bs. inl ((a, bs), refl);
  extends = λ bs more p e. ap (λ q. ok (q.0, q.1 ++ more)) (ok-injective e);
  consumes = λ bs p e. omega (arith, ap (λ q. length q.1) (ok-injective e));
}

module _ {ℓ κ} {T : Type ℓ} {U : Type κ} {j k : ℕ} {m : Reader T} {f : T → Reader U}
    (first : IsReader j m) (next : (a : T) → IsReader k (f a)) where
  abbrev both : Reader U
  both bs = m bs >>= λ p. f p.0 p.1

  both_total :
      (bs : List ℕ) → ((p : U × List ℕ) × (both bs ≡ ok p)) ⊎ (both bs ≡ err frame_too_short)
  both_total bs = elim (first.total bs) [
    | inl (p, e) ↦ rw e ((next p.0).total p.1)
    | inr e ↦ inr (rw e)
  ]

  both_extends :
      (bs more : List ℕ) (q : U × List ℕ)
      → both bs ≡ ok q
      → both (bs ++ more) ≡ ok (q.0, q.1 ++ more)
  both_extends bs more q e =
      let (p, e₁, e₂) = bind_inversion (m bs) (λ p. f p.0 p.1) e in
      rw (first.extends bs more p e₁) ((next p.0).extends p.1 more q e₂)

  both_consumes : (bs : List ℕ) (q : U × List ℕ) → both bs ≡ ok q → length q.1 + (j + k) ≤ length bs
  both_consumes bs q e =
      let (p, e₁, e₂) = bind_inversion (m bs) (λ p. f p.0 p.1) e in
      omega (arith, first.consumes bs p e₁, (next p.0).consumes p.1 q e₂)

  pub IsReader-bind : IsReader (j + k) (λ bs. m bs >>= λ p. f p.0 p.1)
  IsReader-bind = record { total = both_total; extends = both_extends; consumes = both_consumes }

pub IsReader-any {ℓ} : {T : Type ℓ} {k : ℕ} {read : Reader T} → IsReader k read → IsReader 0 read
IsReader-any r = record {
  total = r.total;
  extends = r.extends;
  consumes = λ bs p e. omega (arith, r.consumes bs p e);
}

pub IsReader-fail {ℓ} : {T : Type ℓ} → IsReader {T = T} 0 (λ bs. err frame_too_short)
IsReader-fail = record {
  total = λ bs. inr refl;
  extends = λ bs more p c. cc;
  consumes = λ bs p c. cc;
}

-- A computation that leaves the cursor where it is.
pub IsReader-lift {ℓ} :
    {T : Type ℓ} (o : Outcome T)
    → ((a : T) × (o ≡ ok a)) ⊎ (o ≡ err frame_too_short)
    → IsReader 0 (λ bs. o >>= λ a. ok (a, bs))
IsReader-lift o h = elim h [ inl (a, e) ↦ rw e (IsReader-pure a) | inr e ↦ rw e IsReader-fail ]
