-- ===== src/Disk/Streams.antt =====
-- disk::fopen, fclose, fread and fwrite on the std::fstream of the class, which no other part uses.
use lunix.Base.{
  inl, inr, Bool-cases, ◌⊎◌, ℕ, ◌≡◌, refl, ap, if◌then◌else◌, Bool, true, false, length, [],
}
use lunix.Base.Text.{Text}
use lunix.Base.Int.{ℤ, pos, negsuc}

-- What is asked of a std::fstream `F` over the files `S`, for open modes `O`. What read and write
-- give first is whether the stream is still good behind them; read gives what it has put into the
-- buffer too.
pub record Fstream (F S O : Type 0) : Type 0 where
  pub is_open : F → Bool
  pub open_ : F → Text → O → S → F × S
  pub close : F → S → F × S
  pub read : F → ℕ → S → Bool × Text × F × S
  pub write : F → Text → S → Bool × F × S

-- What is relied on: an open stream that is opened again stays open and opens nothing, a closed
-- stream is not open, and a read behind which the stream is good has filled the buffer.
pub record FstreamLaws {F S O : Type 0} (stream : Fstream F S O) : Type 0 where
  pub open-is_open :
      (f : F) (name : Text) (mode : O) (s : S)
      → stream.is_open f ≡ true
      → (stream.is_open (stream.open_ f name mode s).0 ≡ true)
        × ((stream.open_ f name mode s).1 ≡ s)
  pub close-is_open : (f : F) (s : S) → stream.is_open (stream.close f s).0 ≡ false
  pub length-read :
      (f : F) (size : ℕ) (s : S)
      → (stream.read f size s).0 ≡ true
      → length (stream.read f size s).1 ≡ size

module _ {F S O : Type 0} (stream : Fstream F S O) where
  -- The result, the stream and the files.
  abbrev pub Outcome : Type 0
  Outcome = ℤ × F × S

  unfoldable pub fopen : Text → O → F → S → Outcome
  fopen filename mode fs s =
      let (fs', s') = stream.open_ fs filename mode s in
      if stream.is_open fs' then (pos 0, fs', s') else (pos 1, fs', s')

  unfoldable pub fclose : F → S → Outcome
  fclose fs s =
      let (fs', s') = stream.close fs s in
      if stream.is_open fs then (pos 0, fs', s') else (pos 1, fs, s)

  -- With the bytes in the buffer; gcount counts them.
  unfoldable pub fread : ℕ → F → S → Text × ℤ × F × S
  fread size fs s =
      let (good, buffer, fs', s') = stream.read fs size s in
      if stream.is_open fs
      then (if good then (buffer, pos (length buffer), fs', s') else (buffer, negsuc 0, fs', s'))
      else ([], negsuc 0, fs, s)

  unfoldable pub fwrite : Text → F → S → Outcome
  fwrite buffer fs s =
      let (good, fs', s') = stream.write fs buffer s in
      if stream.is_open fs
      then (if good then (pos 0, fs', s') else (pos 1, fs', s'))
      else (pos 1, fs, s)

  -- A read gives -1 or the size that was asked for, never a count in between.
  fread-cases :
      (size : ℕ) (fs : F) (s : S)
      → FstreamLaws stream
      → ((fread size fs s).1 ≡ pos size) ⊎ ((fread size fs s).1 ≡ negsuc 0)
  unfolding fread
  fread-cases size fs s laws = elim (Bool-cases (stream.is_open fs)) [
    | inr e ↦ inr (rw e refl)
    | inl e ↦ elim (Bool-cases (stream.read fs size s).0) [
      | inr f ↦ inr (rw (e, f) refl)
      | inl f ↦ inl (rw (e, f) (ap pos (laws.length-read fs size s f)))
    ]
  ]

  closed :
      (fs : F) (s : S)
      → stream.is_open fs ≡ false
      → (fclose fs s ≡ (pos 1, fs, s))
        × ((size : ℕ) → fread size fs s ≡ ([], negsuc 0, fs, s))
        × ((buffer : Text) → fwrite buffer fs s ≡ (pos 1, fs, s))
  unfolding fclose fread fwrite
  closed fs s e = (rw e refl, λ size. rw e refl, λ buffer. rw e refl)

  -- On an open stream fopen reports success for every name, while it opens nothing and the files
  -- stay as they are; fclose succeeds, and behind it a second fclose, every fread and every fwrite
  -- fail and leave the stream and the files alone.
  pub open-close :
      (fs : F) (s : S)
      → FstreamLaws stream
      → stream.is_open fs ≡ true
      → ((name : Text) (mode : O)
          → ((fopen name mode fs s).0 ≡ pos 0) × ((fopen name mode fs s).2 ≡ s))
        × ((fclose fs s).0 ≡ pos 0)
        × (let fs' = (fclose fs s).1 in
            let s' = (fclose fs s).2 in
            (fclose fs' s' ≡ (pos 1, fs', s'))
            × ((size : ℕ) → fread size fs' s' ≡ ([], negsuc 0, fs', s'))
            × ((buffer : Text) → fwrite buffer fs' s' ≡ (pos 1, fs', s')))
  unfolding fopen fclose
  open-close fs s laws e = (
    λ name mode. (
      rw (laws.open-is_open fs name mode s e).0 refl,
      rw (laws.open-is_open fs name mode s e).0 (laws.open-is_open fs name mode s e).1,
    ),
    rw e refl,
    rw e (closed (stream.close fs s).0 (stream.close fs s).1 (laws.close-is_open fs s)),
  )
