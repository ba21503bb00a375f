-- ===== src/Hex.antt =====
-- The hexadecimal text of a digest, as security/userman.cpp (hashPassword) and the bootloader
-- (computeSHA256) write it: std::hex, std::setw(2) and std::setfill('0') for each byte.
use lunix.Base.{
  ℕ, ◌+◌, ◌/◌, ◌%◌, ◌*◌, ◌≤◌, ◌<◌, ◌≡◌, ◌≢◌, ◌⊎◌, refl, sym, ◌∙◌, ltb, if◌then◌else◌, List, [], ◌∷◌,
  ◌++◌, arith, length, All,
}
use lunix.Base.Text.{Text}

-- The digits of std::hex, in lower case.
digit : ℕ → ℕ
digit n = if ltb n 10 then 48 + n else 87 + n

-- A byte as std::hex prints it, without padding.
hex : ℕ → Text
unfolding digit
hex n = if ltb n 16 then digit n ∷ [] else digit (n / 16) ∷ digit (n % 16) ∷ []

-- setw(2) with setfill('0')
pad : Text → Text
pad s = if ltb (length s) 2 then 48 ∷ s else s

unfoldable pub hex_dump : List ℕ → Text
unfolding hex pad
hex_dump [] = []
hex_dump (b ∷ bs) = pad (hex b) ++ hex_dump bs

abbrev pub IsByte : ℕ → Type 0
IsByte b = b < 256

-- '0'..'9' or 'a'..'f'
abbrev pub IsHexDigit : ℕ → Type 0
IsHexDigit c = ((48 ≤ c) × (c ≤ 57)) ⊎ ((97 ≤ c) × (c ≤ 102))

pad-hex : (b : ℕ) → IsByte b → pad (hex b) ≡ digit (b / 16) ∷ digit (b % 16) ∷ []
unfolding pad hex
pad-hex b h = ground arith

digit-IsHexDigit : (n : ℕ) → n < 16 → IsHexDigit (digit n)
unfolding digit
digit-IsHexDigit n h = ground arith

digit_inj : (m n : ℕ) → m < 16 → n < 16 → digit m ≡ digit n → m ≡ n
unfolding digit
digit_inj m n hm hn e = ground arith

hex_dump-cons :
    (b : ℕ) (bs : List ℕ)
    → IsByte b
    → hex_dump (b ∷ bs) ≡ digit (b / 16) ∷ digit (b % 16) ∷ hex_dump bs
hex_dump-cons b bs h = unfold hex_dump in rw (pad-hex b h)

-- Two digits for each byte.
pub length-hex_dump : (bs : List ℕ) → All IsByte bs → length (hex_dump bs) ≡ 2 * length bs
length-hex_dump [] h = unfold hex_dump in refl
length-hex_dump (b ∷ bs) h = rw (hex_dump-cons b bs h.0) (omega (arith, length-hex_dump bs h.1))

pub hex_dump-IsHexDigit : (bs : List ℕ) → All IsByte bs → All IsHexDigit (hex_dump bs)
hex_dump-IsHexDigit [] h = unfold hex_dump in tt
hex_dump-IsHexDigit (b ∷ bs) h = rw (hex_dump-cons b bs h.0) (
  digit-IsHexDigit _ (omega (arith, h.0)),
  (digit-IsHexDigit _ (omega arith), hex_dump-IsHexDigit bs h.1),
)

same_byte :
    (a b : ℕ)
    → digit (a / 16) ≡ digit (b / 16)
    → digit (a % 16) ≡ digit (b % 16)
    → IsByte a
    → IsByte b
    → a ≡ b
same_byte a b p q ha hb = omega (
  arith,
  digit_inj (a / 16) (b / 16) (omega arith) (omega arith) p,
  digit_inj (a % 16) (b % 16) (omega arith) (omega arith) q,
)

nonempty : {x : ℕ} {s t : Text} → s ≡ x ∷ t → s ≢ []
nonempty p q = cc

-- The text determines the bytes.
pub hex_dump_inj :
    (xs bs : List ℕ) → All IsByte xs → All IsByte bs → hex_dump xs ≡ hex_dump bs → xs ≡ bs
hex_dump_inj [] [] ha hb e = refl
hex_dump_inj [] (b ∷ bs) ha hb e =
    absurd (nonempty (hex_dump-cons b bs hb.0) (sym e ∙ unfold hex_dump in refl))
hex_dump_inj (a ∷ xs) [] ha hb e =
    absurd (nonempty (hex_dump-cons a xs ha.0) (e ∙ unfold hex_dump in refl))
hex_dump_inj (a ∷ xs) (b ∷ bs) ha hb e =
    let d = sym (hex_dump-cons a xs ha.0) ∙ e ∙ hex_dump-cons b bs hb.0 in
    let p : digit (a / 16) ≡ digit (b / 16) = cc in
    let q : digit (a % 16) ≡ digit (b % 16) = cc in
    cc (same_byte a b p q ha.0 hb.0, hex_dump_inj xs bs ha.1 hb.1 (cc))
