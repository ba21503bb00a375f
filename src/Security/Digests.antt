-- ===== src/Security/Digests.antt =====
-- UserManager::hashPassword: what a stored hash looks like.
use lunix.Base.{
  ℕ, suc, ◌≡◌, ◌≢◌, ◌↔◌, refl, ap, false, List, [], ◌∷◌, ◌++◌, arith, length, length-append, All,
}
use lunix.Base.Text.{Text, text_eq}
use lunix.Stream.Lines.{Lacks}
use lunix.Hex.{IsByte, IsHexDigit, hex_dump, length-hex_dump, hex_dump-IsHexDigit, hex_dump_inj}
use lunix.Security.{dot, hash_password}

-- What is relied on of SHA256: 32 bytes.
pub record Sha256Laws (sha256 : Text → List ℕ) : Type 0 where
  pub length_digest : (s : Text) → length (sha256 s) ≡ 32
  pub digest_bytes : (s : Text) → All IsByte (sha256 s)

text_eq-length : (s t : Text) → length s ≢ length t → text_eq s t ≡ false
text_eq-length [] [] h = absurd (h refl)
text_eq-length [] (y ∷ t) h = refl
text_eq-length (x ∷ s) [] h = refl
text_eq-length (x ∷ s) (y ∷ t) h = ground (arith, text_eq-length s t (λ e. h (ap suc e)))

HexDigit-Lacks : (b : ℕ) (s : Text) → ¬ IsHexDigit b → All IsHexDigit s → Lacks b s
HexDigit-Lacks b [] h a = tt
HexDigit-Lacks b (c ∷ s) h a = ((λ e. h (rw (← e) a.0)), HexDigit-Lacks b s h a.1)

module _ (sha256 : Text → List ℕ) (sha : Sha256Laws sha256) where
  -- A stored hash is 64 hexadecimal digits, and two passwords have the same one exactly when they
  -- have the same digest.
  pub hash_password-IsHexDigit :
      (p q : Text)
      → (length (hash_password sha256 p) ≡ 64)
        × All IsHexDigit (hash_password sha256 p)
        × ((hash_password sha256 p ≡ hash_password sha256 q) ↔ (sha256 p ≡ sha256 q))
  unfolding hash_password
  hash_password-IsHexDigit p q = (
    omega (arith, length-hex_dump (sha256 p) (sha.digest_bytes p), sha.length_digest p),
    hex_dump-IsHexDigit (sha256 p) (sha.digest_bytes p),
    (hex_dump_inj (sha256 p) (sha256 q) (sha.digest_bytes p) (sha.digest_bytes q), ap hex_dump),
  )

  pub hash-Lacks : (b : ℕ) (p : Text) → ¬ IsHexDigit b → Lacks b (hash_password sha256 p)
  hash-Lacks b p h = HexDigit-Lacks b _ h (hash_password-IsHexDigit p p).1

  -- What stands behind a dot inside a name and before the hash makes the field longer than a hash.
  pub too_long :
      (b p q : Text) → text_eq (b ++ dot ∷ hash_password sha256 p) (hash_password sha256 q) ≡ false
  too_long b p q = text_eq-length (b ++ dot ∷ hash_password sha256 p) (hash_password sha256 q) λ e.
      omega (
        arith,
        e,
        length-append b (dot ∷ hash_password sha256 p),
        (hash_password-IsHexDigit p p).0,
        (hash_password-IsHexDigit q q).0,
      )
