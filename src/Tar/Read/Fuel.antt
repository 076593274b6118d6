-- ===== src/Tar/Read/Fuel.antt =====
-- The fuel of the loop of `readTar`.
use bab_takehome.Base.{
  ℕ, zero, suc, ◌+◌, ◌≤◌, ◌<◌, ◌≡◌, refl, ap, inl, inr, List, [], ◌∷◌, arith, length, length-drop,
  take, drop, every, if◌then◌else◌, ltb, Bool-cases, Text, Result, ok, err, ◌>>=◌, raise_if,
}
use bab_takehome.Tar.Entries.{Bytes, block, padded, TarEntry, Codec}
use bab_takehome.Tar.Paths.{TarError, truncated_data, missing_end}
use bab_takehome.Tar.Read.{read_header, read_loop, entry_of, is_zero}

>>=-same :
    {E A B : Type 0} (m : Result E A) (f g : A → Result E B)
    → ((a : A) → f a ≡ g a)
    → (m >>= f) ≡ (m >>= g)
>>=-same (ok a) f g h = h a
>>=-same (err e) f g h = refl

module _ (codec : Codec) where
  -- The loop of `readTar` ends: with any fuel above the number of the bytes that are left, its
  -- result is the same, so the fuel of `read_tar`, the number of bytes plus one, never runs out.
  read_loop_fuel :
      (f g off : ℕ) (rest : Bytes) (seen : List Text)
      → length rest < f
      → length rest < g
      → read_loop codec f off rest seen ≡ read_loop codec g off rest seen
  unfolding read_loop
  read_loop_fuel zero g off rest seen h k = absurd (omega arith)
  read_loop_fuel (suc f) zero off rest seen h k = absurd (omega arith)
  read_loop_fuel (suc f) (suc g) off rest seen h k = elim (Bool-cases (ltb (length rest) block)) [
    | inl short ↦ rw short refl
    | inr long ↦
        let enough : block ≤ length rest = ground arith in
        let shorter : (n : ℕ) → length (drop n (drop block rest)) < length rest =
          λ n. omega (arith, length-drop n (drop block rest), length-drop block rest, enough) in
        ap
          (λ (r : Result TarError (List TarEntry)).
            if ltb (length rest) block
            then err missing_end
            else if every is_zero (take block rest)
            then ok []
            else r)
          (>>=-same (read_header codec off (take block rest) seen) _ _ (λ e.
            >>=-same (raise_if (ltb (length (drop block rest)) e.size) (truncated_data e.path)) _ _
              (λ u.
                ap
                  (λ (r : Result TarError (List TarEntry)).
                    r >>= λ entries. ok (entry_of e (drop block rest) ∷ entries))
                  (read_loop_fuel f g (off + block + padded e.size)
                    (drop (padded e.size) (drop block rest)) (e.path ∷ seen)
                    (omega (arith, shorter (padded e.size)))
                    (omega (arith, shorter (padded e.size)))))))
  ]
