-- ===== src/Server/Run/Address.antt =====
-- Server::run's addresses: what getPrivateIP makes of the dotted texts of inet_ntoa.
use lunix.Base.{
  if_intro, ap, ℕ, leb, ◌==◌, ◌&&◌, ◌||◌, Bool, true, false, [], ◌∷◌, ◌++◌, some, take, drop, ◌≡◌,
  refl, ◌<◌, ◌∙◌, arith,
}
use lunix.Base.Text.{Text, codes, starts_with, text_eq, is_empty}
use lunix.Base.Decimal.{decimal}
use lunix.Server.Run.Bytes.{
  Right, taken_digits, lacks_dot, lacks_dot-Lacks, starts_with-dotted, byte-Right,
}
use lunix.Server.Run.{is_private, in_range, stoi}

-- The text of the address whose first two bytes are a and b.
abbrev pub address : ℕ → ℕ → Text → Text
address a b rest = decimal a ++ b'.' ∷ (decimal b ++ b'.' ∷ rest)

-- What inet_ntoa writes.
abbrev pub IsDotted : Text → Type 0
IsDotted ip = (a : ℕ) × (b : ℕ) × (rest : Text) × (a < 256) × (b < 256) × (ip ≡ address a b rest)

-- The addresses that the test takes, those from 172.160.0.0 to 172.255.255.255 among them.
abbrev pub is_taken : ℕ → ℕ → Bool
is_taken a b =
    ((a == 192 && b == 168) || a == 10) || (a == 172 && ((leb 16 b && leb b 31) || leb 160 b))

-- The dot ends the first two bytes of a text at the latest.
take-dotted :
    (s rest : Text) → is_empty s ≡ false → take 2 (s ++ b'.' ∷ rest) ≡ take 2 (s ++ b'.' ∷ [])
take-dotted [] rest h = cc h
take-dotted (c ∷ []) rest h = refl
take-dotted (c ∷ d ∷ s) rest h = refl

and_true : (b : Bool) → (b && true) ≡ b
and_true true = refl
and_true false = refl

-- One number of an address against one of the test.
dotted_number :
    (k : ℕ) (u rest v : Text)
    → Right k
    → lacks_dot u ≡ true
    → starts_with (decimal k ++ b'.' ∷ rest) (u ++ b'.' ∷ v)
      ≡ text_eq (decimal k) u && starts_with rest v
dotted_number k u rest v r h = starts_with-dotted (decimal k) rest u v r.lacks (lacks_dot-Lacks u h)

starts_with-192 :
    (a b : ℕ) (rest : Text)
    → Right a
    → Right b
    → starts_with (address a b rest) (codes "192.168.") ≡ (a == 192 && b == 168)
starts_with-192 a b rest ra rb =
    rw
      (
        dotted_number a (codes "192") (decimal b ++ b'.' ∷ rest) (codes "168.") ra refl,
        dotted_number b (codes "168") rest [] rb refl,
        ra.is_192,
        rb.is_168,
        and_true (b == 168),
      )
      refl

starts_with-10 :
    (a b : ℕ) (rest : Text) → Right a → starts_with (address a b rest) (codes "10.") ≡ (a == 10)
starts_with-10 a b rest ra =
    rw
      (
        dotted_number a (codes "10") (decimal b ++ b'.' ∷ rest) [] ra refl,
        ra.is_10,
        and_true (a == 10),
      )
      refl

starts_with-172 :
    (a b : ℕ) (rest : Text) → Right a → starts_with (address a b rest) (codes "172.") ≡ (a == 172)
starts_with-172 a b rest ra =
    rw
      (
        dotted_number a (codes "172") (decimal b ++ b'.' ∷ rest) [] ra refl,
        ra.is_172,
        and_true (a == 172),
      )
      refl

-- The two bytes that stoi reads, behind 172 and its dot.
second_number :
    (b : ℕ) (rest : Text)
    → Right b
    → in_range (stoi (take 2 (decimal b ++ b'.' ∷ rest))) ≡ some (taken_digits b)
second_number b rest rb =
    ap (λ s. in_range (stoi s)) (take-dotted (decimal b) rest rb.some_digit) ∙ rb.first_two

==-≡ : (a b : ℕ) → (a == b) ≡ true → a ≡ b
==-≡ a b e = ground (arith, e)

after_172 :
    (a b : ℕ) (rest : Text)
    → Right b
    → (a == 172) ≡ true
    → in_range (stoi (take 2 (drop 4 (address a b rest)))) ≡ some (taken_digits b)
unfolding decimal
after_172 a b rest rb e =
    ap (λ a. in_range (stoi (take 2 (drop 4 (address a b rest))))) (==-≡ a 172 e)
    ∙ second_number b rest rb

-- On a dotted address the test is decided and does not throw: it takes 192.168, 10 and 172.16 to
-- 172.31, and 172.160 to 172.255 too, since it compares the first two digits of the second number.
pub is_private-address :
    (a b : ℕ) (rest : Text)
    → a < 256
    → b < 256
    → is_private (address a b rest) ≡ some (is_taken a b)
unfolding is_private
is_private-address a b rest la lb =
    let ra = byte-Right a la in
    let rb = byte-Right b lb in
    rw (starts_with-192 a b rest ra rb, starts_with-10 a b rest ra, starts_with-172 a b rest ra)
      (if_intro (λ o. o ≡ some (is_taken a b)) ((a == 192 && b == 168) || a == 10) (some true) _
        (λ e. rw e refl)
        (λ e.
          if_intro (λ o. o ≡ some (is_taken a b)) (a == 172) _ (some false)
            (λ f. after_172 a b rest rb f ∙ rw (e, f) refl) (λ f. rw (e, f) refl)))

pub IsDotted-decided : (ip : Text) → IsDotted ip → (taken : Bool) × (is_private ip ≡ some taken)
IsDotted-decided ip (a, b, rest, la, lb, e) =
    (is_taken a b, ap is_private e ∙ is_private-address a b rest la lb)
