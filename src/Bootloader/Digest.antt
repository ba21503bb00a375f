-- ===== src/Bootloader/Digest.antt =====
-- computeSHA256: the file that is read buffer by buffer.
use lunix.Base.{
  ℕ, zero, suc, ◌≡◌, ◌<◌, ◌≤◌, refl, sym, ◌∙◌, ap, ltb, if◌then◌else◌, false, [], ◌∷◌, ◌++◌, Option,
  none, some, take, drop, length, arith, Bool-cases, inl, inr,
}
use lunix.Base.Text.{Text}
use lunix.Bootloader.{Evp, update_all, buffer_size}

abbrev pub continue_with : {C : Type 0} → Option C → (C → Option C) → Option C
continue_with none f = none
continue_with (some c) f = f c

-- What is relied on of EVP_DigestUpdate: two updates are one with both pieces.
pub record EvpLaws {C : Type 0} (evp : Evp C) : Type 0 where
  pub update-append :
      (c : C) (a b : Text)
      → evp.update c (a ++ b) ≡ continue_with (evp.update c a) (λ d. evp.update d b)

take_all : (n : ℕ) (s : Text) → length s < n → take n s ≡ s
take_all zero s h = absurd (omega arith)
take_all (suc n) [] h = refl
take_all (suc n) (c ∷ s) h = ap (λ t. c ∷ t) (take_all n s (omega arith))

take-append-drop : (n : ℕ) (s : Text) → take n s ++ drop n s ≡ s
take-append-drop zero s = refl
take-append-drop (suc n) [] = refl
take-append-drop (suc n) (c ∷ s) = ap (λ t. c ∷ t) (take-append-drop n s)

length-drop : (n : ℕ) (s : Text) → 0 < n → n ≤ length s → length (drop n s) < length s
length-drop zero s h le = absurd (omega arith)
length-drop (suc zero) [] h le = absurd (omega arith)
length-drop (suc zero) (c ∷ s) h le = omega arith
length-drop (suc (suc n)) [] h le = absurd (omega arith)
length-drop (suc (suc n)) (c ∷ s) h le =
    omega (arith, length-drop (suc n) s (omega arith) (omega arith))

module _ {C : Type 0} (evp : Evp C) where
  -- A round of the loop.
  update_all-suc :
      (fuel : ℕ) (rest : Text) (c : C)
      → update_all evp (suc fuel) rest c
        ≡ continue_with (evp.update c (take buffer_size rest)) (λ d.
          if ltb (length rest) buffer_size
          then some d
          else update_all evp fuel (drop buffer_size rest) d)
  unfolding update_all
  update_all-suc fuel rest c = go (evp.update c (take buffer_size rest))
    where
      go :
          (r : Option C)
          → elim r [
            | none ↦ none
            | some d ↦
                (if ltb (length rest) buffer_size
                  then some d
                  else update_all evp fuel (drop buffer_size rest) d)
          ]
            ≡ continue_with r (λ d.
              if ltb (length rest) buffer_size
              then some d
              else update_all evp fuel (drop buffer_size rest) d)
      go none = refl
      go (some d) = refl

  continue_with-some : (r : Option C) → continue_with r some ≡ r
  continue_with-some none = refl
  continue_with-some (some d) = refl

  continue_with-ext :
      (r : Option C) (f g : C → Option C)
      → ((d : C) → f d ≡ g d)
      → continue_with r f ≡ continue_with r g
  continue_with-ext none f g h = refl
  continue_with-ext (some d) f g h = h d

  shorter :
      {fuel : ℕ} (rest : Text)
      → length rest < suc fuel
      → ltb (length rest) buffer_size ≡ false
      → length (drop buffer_size rest) < fuel
  shorter rest h more =
      let full : buffer_size ≤ length rest = ground (arith, more) in
      omega (arith, length-drop buffer_size rest (omega arith) full)

  module _ (laws : EvpLaws evp) where
    -- With more rounds than the file has bytes, the loop over its buffers digests what one update
    -- with the whole file would.
    pub update_all-update :
        (fuel : ℕ) (rest : Text) (c : C)
        → length rest < fuel
        → update_all evp fuel rest c ≡ evp.update c rest
    update_all-update zero rest c h = absurd (omega arith)
    update_all-update (suc fuel) rest c h = elim (Bool-cases (ltb (length rest) buffer_size)) [
      | inl last ↦
          rw (update_all-suc fuel rest c, last, take_all buffer_size rest (ground (arith, last)))
            (continue_with-some (evp.update c rest))
      | inr more ↦
          rw (update_all-suc fuel rest c, more)
            (continue_with-ext (evp.update c (take buffer_size rest)) _ _
                (λ d. update_all-update fuel (drop buffer_size rest) d (shorter rest h more))
              ∙ sym (laws.update-append c (take buffer_size rest) (drop buffer_size rest))
              ∙ ap (evp.update c) (take-append-drop buffer_size rest))
    ]
